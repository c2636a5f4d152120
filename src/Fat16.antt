-- ===== src/Fat16.antt =====
-- src/fs/fat/fat16.c: the structures of the FAT16 file system, as they stand on the disk, and what its
-- calls return. A field of two or four bytes is little-endian.
pub mod Chain
pub mod Names
pub mod Directory
pub mod Items
pub mod Files
pub mod Mount
use marrow_os.Base.{ℕ, ◌+◌, ◌-◌, ◌*◌, ◌^◌, List, Option, none, some, get_or, take, drop}
use marrow_os.Streamer.{DiskStream}

abbrev pub fat_signature : ℕ
fat_signature = 0x29

abbrev pub fat_entry_size : ℕ
fat_entry_size = 2

abbrev pub fat_bad_sector : ℕ
fat_bad_sector = 0xff7

abbrev pub fat_file_read_only : ℕ
fat_file_read_only = 0x01

abbrev pub fat_file_subdirectory : ℕ
fat_file_subdirectory = 0x10

-- The error codes of status.h that the file system returns.
pub data FatError : Type 0 where
  eio einvarg enomem efsnotus erdonly eunimp : FatError

-- A result that is not an error, or a negative error code.
pub data Res (A : Type 0) : Type 0 where
  ok : A → Res A
  err : FatError → Res A

abbrev pub byte_at : List ℕ → ℕ → ℕ
byte_at bs i = get_or bs i 0

abbrev pub word_at : List ℕ → ℕ → ℕ
word_at bs i = byte_at bs i + 256 * byte_at bs (i + 1)

abbrev pub long_at : List ℕ → ℕ → ℕ
long_at bs i = word_at bs i + 65536 * word_at bs (i + 2)

abbrev pub bytes_at : List ℕ → ℕ → ℕ → List ℕ
bytes_at bs i n = take n (drop i bs)

pub record FatHeader : Type 0 where
  pub short_jump_ins : List ℕ
  pub oem_identifier : List ℕ
  pub bytes_per_sector : ℕ
  pub sectors_per_cluster : ℕ
  pub reserved_sectors : ℕ
  pub fat_copies : ℕ
  pub root_dir_entries : ℕ
  pub number_of_sectors : ℕ
  pub media_type : ℕ
  pub sectors_per_fat : ℕ
  pub sectors_per_track : ℕ
  pub number_of_heads : ℕ
  pub hidden_sectors : ℕ
  pub sectors_big : ℕ

pub record FatHeaderExtended : Type 0 where
  pub drive_number : ℕ
  pub win_nt_bit : ℕ
  pub signature : ℕ
  pub volume_id : ℕ
  pub volume_id_string : List ℕ
  pub system_id_string : List ℕ

pub record FatH : Type 0 where
  pub primary_header : FatHeader
  pub extended_header : FatHeaderExtended

-- `sizeof(struct fat_h)`
abbrev pub fat_h_size : ℕ
fat_h_size = 62

unfoldable pub fat_header : List ℕ → FatHeader
fat_header bs = record {
  short_jump_ins = bytes_at bs 0 3;
  oem_identifier = bytes_at bs 3 8;
  bytes_per_sector = word_at bs 11;
  sectors_per_cluster = byte_at bs 13;
  reserved_sectors = word_at bs 14;
  fat_copies = byte_at bs 16;
  root_dir_entries = word_at bs 17;
  number_of_sectors = word_at bs 19;
  media_type = byte_at bs 21;
  sectors_per_fat = word_at bs 22;
  sectors_per_track = word_at bs 24;
  number_of_heads = word_at bs 26;
  hidden_sectors = long_at bs 28;
  sectors_big = long_at bs 32;
}

unfoldable pub fat_header_extended : List ℕ → FatHeaderExtended
fat_header_extended bs = record {
  drive_number = byte_at bs 36;
  win_nt_bit = byte_at bs 37;
  signature = byte_at bs 38;
  volume_id = long_at bs 39;
  volume_id_string = bytes_at bs 43 11;
  system_id_string = bytes_at bs 54 8;
}

unfoldable pub fat_h : List ℕ → FatH
fat_h bs = record { primary_header = fat_header bs; extended_header = fat_header_extended bs }

pub record FatDirectoryItem : Type 0 where
  pub filename : List ℕ
  pub ext : List ℕ
  pub attribute : ℕ
  pub reserved : ℕ
  pub creation_time_tenths_of_a_sec : ℕ
  pub creation_time : ℕ
  pub creation_date : ℕ
  pub last_access : ℕ
  pub high_16_bits_first_cluster : ℕ
  pub last_mod_time : ℕ
  pub last_mod_date : ℕ
  pub low_16_bits_first_cluster : ℕ
  pub filesize : ℕ

-- `sizeof(struct fat_directory_item)`
abbrev pub item_size : ℕ
item_size = 32

unfoldable pub fat_directory_item : List ℕ → FatDirectoryItem
fat_directory_item bs = record {
  filename = bytes_at bs 0 8;
  ext = bytes_at bs 8 3;
  attribute = byte_at bs 11;
  reserved = byte_at bs 12;
  creation_time_tenths_of_a_sec = byte_at bs 13;
  creation_time = word_at bs 14;
  creation_date = word_at bs 16;
  last_access = word_at bs 18;
  high_16_bits_first_cluster = word_at bs 20;
  last_mod_time = word_at bs 22;
  last_mod_date = word_at bs 24;
  low_16_bits_first_cluster = word_at bs 26;
  filesize = long_at bs 28;
}

-- `struct fat_directory` at `node`, with the items that `items_ptr` points to. An `int` is its 32-bit
-- pattern.
pub record FatDirectory : Type 0 where
  pub node : ℕ
  pub items_ptr : ℕ
  pub item : List FatDirectoryItem
  pub total : ℕ
  pub sector_pos : ℕ
  pub ending_sector_pos : ℕ

-- `struct fat_private`. A stream is never null: `disk_streamer_new` writes through it.
pub record FatPrivate : Type 0 where
  pub header : FatH
  pub root_directory : FatDirectory
  pub cluster_read_stream : DiskStream
  pub fat_read_stream : DiskStream
  pub directory_stream : DiskStream
