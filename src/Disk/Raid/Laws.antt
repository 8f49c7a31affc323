-- ===== src/Disk/Raid/Laws.antt =====
-- kernel/disk_sched.c: what the three mappings do on the blocks that the swap space uses.
use gem_os_extension.Base.{
  ℕ, ◌+◌, ◌*◌, ◌/◌, ◌%◌, ◌^◌, ◌<◌, ◌≡◌, ap, ◌≢◌, ◌↔◌, ◌⊎◌, leb, if◌then◌else◌, pos, arith,
}
use gem_os_extension.Disk.Raid.{
  num_disks, disk_blocks_per_disk, raid_mode_0, raid_mode_1, raid_mode_5, raid0_map, raid1_map,
  raid5_map, raid_reverse_map,
}

-- Of the non-negative blocks RAID 0 accepts exactly those below the capacity of the four disks; mapping a block by it and
-- back returns that block; and a location on one of the disks is the image of the block that the
-- reverse mapping finds, which is accepted.
pub raid0_round_trip :
    (b disk block : ℕ)
    → b < 2 ^ 31
    → disk < num_disks
    → block < disk_blocks_per_disk
    → (((raid0_map b).status ≡ pos 0) ↔ (b < num_disks * disk_blocks_per_disk))
      × (raid_reverse_map raid_mode_0 (raid0_map b).out_disk (raid0_map b).out_block 0 ≡ (pos 0, b))
      × (raid0_map (raid_reverse_map raid_mode_0 disk block 0).1
          ≡ record { status = pos 0; out_disk = disk; out_block = block })
unfolding raid0_map raid_reverse_map
raid0_round_trip b disk block int hd hb = ground arith

-- RAID 1 accepts every block and uses the first halves of the disks 0 and 2 alone; two blocks that
-- are 4096 apart share one place; and the reverse mapping returns the block that was mapped exactly
-- if that is below 4096.
pub raid1_lem :
    (b : ℕ)
    → ((raid1_map b).status ≡ pos 0)
      × (((raid1_map b).out_disk ≡ 0) ⊎ ((raid1_map b).out_disk ≡ 2))
      × ((raid1_map b).out_block < 2048)
      × (raid1_map (b + 4096) ≡ raid1_map b)
      × ((raid_reverse_map raid_mode_1 (raid1_map b).out_disk (raid1_map b).out_block 0
            ≡ (pos 0, b))
          ↔ (b < 4096))
unfolding raid1_map raid_reverse_map
raid1_lem b = ground arith

raid5_injective : (b c : ℕ) → b < 6291456 → c < 6291456 → raid5_map b ≡ raid5_map c → b ≡ c
unfolding raid5_map
raid5_injective b c low_b low_c h = ground (arith, low_b, low_c)

raid5_reverse :
    (b : ℕ)
    → b < 6291456
    → (raid_reverse_map raid_mode_5 (raid5_map b).out_disk (raid5_map b).out_block 0)
      ≡ (pos 0, if leb ((b / 3) % num_disks) (b % 3) then b + 1 else b)
unfolding raid5_map raid_reverse_map
raid5_reverse b low = ground (arith, low)

-- Of the blocks below 6291456, from which on the product of the mapping overflows an int, RAID 5
-- accepts exactly the first 12, puts each on one of the four disks, and not on the parity disk of its
-- stripe, and maps no two to the same result. Its reverse mapping does not undo the step over the
-- parity disk: of a block whose data disk was shifted it returns the next block, and of every other
-- one the block itself.
pub raid5_lem :
    (b c : ℕ)
    → b < 6291456
    → c < 6291456
    → (((raid5_map b).status ≡ pos 0) ↔ (b < 12))
      × ((raid5_map b).out_disk < num_disks)
      × ((raid5_map b).out_disk ≢ (b / 3) % num_disks)
      × ((raid5_map b ≡ raid5_map c) ↔ (b ≡ c))
      × (raid_reverse_map raid_mode_5 (raid5_map b).out_disk (raid5_map b).out_block 0
          ≡ (pos 0, if leb ((b / 3) % num_disks) (b % 3) then b + 1 else b))
unfolding raid5_map
raid5_lem b c low_b low_c = (
  ground (arith, low_b),
  ground arith,
  ground arith,
  (raid5_injective b c low_b low_c, ap raid5_map),
  raid5_reverse b low_b,
)
