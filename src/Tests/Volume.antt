-- ===== src/Tests/Volume.antt =====
-- A disk with one file, A.TXT, in the clusters 2 and 4, whose bytes are the numbers of their sectors.
use marrow_os.Base.{ℕ, ◌≤◌, ◌≡◌, refl, if◌then◌else◌, ◌==◌, [], ◌∷◌, replicate, length, arith}
use marrow_os.Kheap.{Kernel}
use marrow_os.Kheap.Low.{LowRoom}
use marrow_os.Kheap.Pages.{Room-le}
use marrow_os.Tests.Machines.{free_kernel, free_kernel-Room}
use marrow_os.Streamer.{Disk, DiskStream}
use marrow_os.Streamer.Stream.{disk_byte, disk_bytes}
use marrow_os.Fat16.{FatHeader, FatHeaderExtended, FatPrivate, FatDirectory, FatDirectoryItem}
use marrow_os.Fat16.Chain.{ends_chain}
use marrow_os.Fat16.Chain.Contents.{IsMounted, Chain, file_bytes}

-- The kernel heap with 16 free blocks.
abbrev pub heap : Kernel
heap = free_kernel 16

pub heap-LowRoom : (n : ℕ) → n ≤ 16 → LowRoom n heap
heap-LowRoom n h = (Room-le n (free_kernel-Room 16 (omega arith)) h, omega arith)

-- Sector 1 has the allocation table: cluster 2 is followed by cluster 4.
abbrev pub disk : Disk
disk = record {
  address = 0x5000;
  sector = λ lba i. if lba == 1 then (if i == 4 then 4 else 0) else lba;
}

abbrev pub stream : DiskStream
stream = record { pos = 0; disk = 0x5000 }

abbrev pub item : FatDirectoryItem
item = record {
  filename = b'A' ∷ replicate 7 0x20;
  ext = b'T' ∷ (b'X' ∷ (b'T' ∷ []));
  attribute = 0;
  reserved = 0;
  creation_time_tenths_of_a_sec = 0;
  creation_time = 0;
  creation_date = 0;
  last_access = 0;
  high_16_bits_first_cluster = 0;
  last_mod_time = 0;
  last_mod_date = 0;
  low_16_bits_first_cluster = 2;
  filesize = 1000;
}

abbrev pub primary : FatHeader
primary = record {
  short_jump_ins = [];
  oem_identifier = [];
  bytes_per_sector = 512;
  sectors_per_cluster = 1;
  reserved_sectors = 1;
  fat_copies = 1;
  root_dir_entries = 16;
  number_of_sectors = 0;
  media_type = 0;
  sectors_per_fat = 1;
  sectors_per_track = 0;
  number_of_heads = 0;
  hidden_sectors = 0;
  sectors_big = 0;
}

abbrev pub extended : FatHeaderExtended
extended = record {
  drive_number = 0;
  win_nt_bit = 0;
  signature = 0x29;
  volume_id = 0;
  volume_id_string = [];
  system_id_string = [];
}

abbrev pub root : FatDirectory
root = record {
  node = 0;
  items_ptr = 4096;
  item = item ∷ [];
  total = 1;
  sector_pos = 2;
  ending_sector_pos = 3;
}

abbrev pub fs_private : FatPrivate
fs_private = record {
  header = record { primary_header = primary; extended_header = extended };
  root_directory = root;
  cluster_read_stream = stream;
  fat_read_stream = stream;
  directory_stream = stream;
}

pub fs_private-IsMounted : IsMounted disk fs_private
fs_private-IsMounted = record { fat_stream = refl; cluster_stream = refl; sectors = omega arith }

pub chain : Chain disk fs_private 2 (4 ∷ [])
unfolding disk_byte ends_chain
chain = (
  record { is_data = omega arith; entry = omega arith; bytes = omega arith },
  refl,
  refl,
  record { is_data = omega arith; entry = omega arith; bytes = omega arith },
)

pub contents_length : length (file_bytes disk fs_private (2 ∷ (4 ∷ []))) ≡ 1024
unfolding file_bytes disk_bytes
contents_length = refl
