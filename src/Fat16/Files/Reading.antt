-- ===== src/Fat16/Files/Reading.antt =====
-- `fat16_read` in src/fs/fat/fat16.c gives the contents of the file.
use marrow_os.Allocator.{Allocator}
use marrow_os.Base.{
  ℕ, suc, ◌+◌, ◌*◌, ◌%◌, ◌^◌, ◌≤◌, ◌<◌, ◌≡◌, refl, ◌∙◌, lt→ltb, none, some, List, ◌∷◌, append-nil,
  length, take, drop, arith, pos,
}
use marrow_os.Base.Run.{>>=-some}
use marrow_os.Streamer.{Disk}
use marrow_os.Fat16.{FatPrivate}
use marrow_os.Fat16.Chain.{fat16_get_first_cluster}
use marrow_os.Fat16.Chain.Contents.{IsMounted, Chain, cluster_size, file_bytes}
use marrow_os.Fat16.Chain.Reads.{fat16_read_internal-contents}
use marrow_os.Fat16.Items.{file_item, ItemCopy}
use marrow_os.Fat16.Files.{
  FatFileDescriptor, FatState, put, read_members, read_item, get_descriptor, get_private,
  set_descriptor, finish_read, fat16_read,
}

abbrev pub file_at : ℕ → ItemCopy → ℕ → FatFileDescriptor
file_at node copy at = record { item = file_item node (some copy); pos = at }

-- What the clusters of the file hold.
abbrev pub contents : Disk → FatPrivate → ItemCopy → List ℕ → List ℕ
contents disk fs_private copy clusters =
    file_bytes disk fs_private (fat16_get_first_cluster copy.item ∷ clusters)

module _ (a : Allocator) where
  pub get_descriptor-some :
      (ptr : ℕ) (s : FatState a.State) (desc : FatFileDescriptor)
      → s.descriptors ptr ≡ some desc
      → get_descriptor a ptr s ≡ some (desc, s)
  unfolding get_descriptor
  get_descriptor-some ptr s desc e = rw (e, get_descriptor) refl

  pub get_private-some :
      (s : FatState a.State) (fs_private : FatPrivate)
      → s.fs_private ≡ some fs_private
      → get_private a s ≡ some (fs_private, s)
  unfolding get_private
  get_private-some s fs_private e = simp (e, get_private)

module _ (a : Allocator) (disk : Disk) (fs_private : FatPrivate) (m : IsMounted disk fs_private)
    (node : ℕ) (copy : ItemCopy) (clusters : List ℕ)
    (chain : Chain disk fs_private (fat16_get_first_cluster copy.item) clusters) where
  abbrev pub unit : ℕ
  unit = cluster_size disk fs_private

  abbrev bytes : List ℕ
  bytes = contents disk fs_private copy clusters

  read_one :
      (k size : ℕ)
      → k < suc (length clusters)
      → size < 2 ^ 31
      → k * unit + size ≤ length bytes
      → length bytes ≤ 2 ^ 31
      → read_item disk fs_private (file_item node (some copy)) size 1 (k * unit)
        ≡ some (none, take size (drop (k * unit) bytes), k * unit + size)
  unfolding read_item read_members
  read_one k size inside w h b =
      let next : (k * unit + size) % 2 ^ 32 ≡ k * unit + size = omega arith in
      rw
        (
          lt→ltb size (2 ^ 31) w,
          fat16_read_internal-contents disk fs_private m (fat16_get_first_cluster copy.item)
              clusters chain k size inside h b,
          append-nil (take size (drop (k * unit) bytes)),
          next,
          read_members,
        )
        refl

  -- Where the file system is mounted and the clusters of an open file form a chain in reach, fat16_read
  -- of one member from the start of a cluster returns 1 and the file's contents from there on, and
  -- moves the position on by the size, and nothing else changes.
  pub fat16_read-contents :
      (s : FatState a.State) (ptr k size : ℕ)
      → s.fs_private ≡ some fs_private
      → s.descriptors ptr ≡ some (file_at node copy (k * unit))
      → k < suc (length clusters)
      → size < 2 ^ 31
      → k * unit + size ≤ length bytes
      → length bytes ≤ 2 ^ 31
      → fat16_read a disk ptr size 1 s
        ≡ some (
          (pos 1, take size (drop (k * unit) bytes)),
          record s {
            descriptors = put s.descriptors ptr (some (file_at node copy (k * unit + size)));
          },
        )
  unfolding fat16_read finish_read set_descriptor
  fat16_read-contents s ptr k size mounted opened inside w h b =
      let desc = file_at node copy (k * unit) in
      >>=-some (get_descriptor a ptr) _ s s desc (get_descriptor-some a ptr s desc opened)
      ∙ >>=-some (get_private a) _ s s fs_private (get_private-some a s fs_private mounted)
      ∙ rw (read_one k size inside w h b) refl
