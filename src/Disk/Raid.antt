-- ===== src/Disk/Raid.antt =====
-- kernel/disk_sched.c: the RAID mapping functions. A function that writes through `out_disk` and
-- `out_block` returns what it leaves there beside its status. Blocks are of type int; those passed in
-- are not negative here, and a product that overflows is taken at its 32 bits.
pub mod Laws
use gem_os_extension.Base.{
  ℕ, ◌+◌, ◌*◌, ◌/◌, ◌%◌, ◌^◌, Bool, ◌&&◌, ltb, leb, ◌==◌, if◌then◌else◌, ℤ, pos, minus_one, eq_ℤ,
  leb_ℤ, update,
}

abbrev pub num_disks : ℕ
num_disks = 4

abbrev pub disk_blocks_per_disk : ℕ
disk_blocks_per_disk = 4096

abbrev pub raid_mode_0 : ℤ
raid_mode_0 = pos 0

abbrev pub raid_mode_1 : ℤ
raid_mode_1 = pos 1

abbrev pub raid_mode_5 : ℤ
raid_mode_5 = pos 2

-- The status of a mapping, and the two locations that it writes.
pub record Mapping : Type 0 where
  pub status : ℤ
  pub out_disk : ℕ
  pub out_block : ℕ

-- The check that ends each mapping: the outputs are written, then compared with the disk's size, as
-- numbers with a sign.
abbrev pub checked : ℕ → ℕ → Mapping
checked disk block = record {
  status = if leb disk_blocks_per_disk block && ltb block (2 ^ 31) then minus_one else pos 0;
  out_disk = disk;
  out_block = block;
}

unfoldable pub raid0_map : ℕ → Mapping
raid0_map logical_block = checked (logical_block % num_disks) (logical_block / num_disks)

unfoldable pub raid1_map : ℕ → Mapping
raid1_map logical_block =
    let stripe = logical_block / (disk_blocks_per_disk / 2) in
    let block_offset = logical_block % (disk_blocks_per_disk / 2) in
    checked (if stripe % 2 == 0 then 0 else 2) block_offset

unfoldable pub raid5_map : ℕ → Mapping
raid5_map logical_block =
    let stripe = logical_block / 3 in
    let data_disk = logical_block % 3 in
    let parity_disk = stripe % num_disks in
    checked (if leb parity_disk data_disk then data_disk + 1 else data_disk)
      (stripe * (disk_blocks_per_disk / num_disks) % 2 ^ 32)

-- The last two arguments are what the outputs hold before the call.
unfoldable pub raid_map_logical_to_physical : ℤ → ℕ → ℕ → ℕ → Mapping
raid_map_logical_to_physical raid_mode logical_block disk block =
    if eq_ℤ raid_mode raid_mode_0
    then raid0_map logical_block
    else if eq_ℤ raid_mode raid_mode_1
    then raid1_map logical_block
    else if eq_ℤ raid_mode raid_mode_5
    then raid5_map logical_block
    else record { status = minus_one; out_disk = disk; out_block = block }

-- The status, and what `out_logical` holds after the call. The arguments are a place on a disk, so
-- that no product overflows.
unfoldable pub raid_reverse_map : ℤ → ℕ → ℕ → ℕ → ℤ × ℕ
raid_reverse_map raid_mode disk block out_logical =
    if eq_ℤ raid_mode raid_mode_0
    then (pos 0, block * num_disks + disk)
    else if eq_ℤ raid_mode raid_mode_1
    then (pos 0, block + (disk / 2) * (disk_blocks_per_disk / 2))
    else if eq_ℤ raid_mode raid_mode_5
    then (pos 0, (block / (disk_blocks_per_disk / num_disks)) * 3 + disk)
    else (minus_one, out_logical)

-- What the outputs of `raid_stripe_page` hold: two arrays and a number.
pub record Striping : Type 0 where
  pub disks : ℕ → ℕ
  pub blocks : ℕ → ℕ
  pub count : ℕ

-- `raid_stripe_page` on outputs that are not null.
unfoldable pub raid_stripe_page : ℤ → ℕ → Striping → Striping
raid_stripe_page raid_mode logical_block out =
    let mapped = raid_map_logical_to_physical raid_mode logical_block 0 0 in
    if eq_ℤ mapped.status (pos 0)
    then record {
      disks = update out.disks 0 mapped.out_disk;
      blocks = update out.blocks 0 mapped.out_block;
      count = 1;
    }
    else record out { count = 0 }

unfoldable pub set_raid_mode : ℤ → ℤ → ℤ
set_raid_mode raid_mode mode =
    if leb_ℤ raid_mode_0 mode && leb_ℤ mode raid_mode_5 then mode else raid_mode
