-- ===== src/Fat16/Files/Seeking.antt =====
-- `fat16_seek` in src/fs/fat/fat16.c, and reads behind it.
use marrow_os.Allocator.{Allocator}
use marrow_os.Base.{
  ℕ, suc, ◌+◌, ◌*◌, ◌%◌, ◌^◌, ◌≤◌, ◌<◌, ◌≡◌, refl, ap, fun_ext, ◌∙◌, leb, true, false, Option, some,
  List, length, take, drop, arith, pos, negsuc, ==_refl,
}
use marrow_os.Base.Run.{◌>>=◌, >>=-some}
use marrow_os.Streamer.{Disk}
use marrow_os.Fat16.{FatPrivate}
use marrow_os.Fat16.Chain.{fat16_get_first_cluster}
use marrow_os.Fat16.Chain.Contents.{IsMounted, Chain, cluster_size}
use marrow_os.Fat16.Items.{ItemCopy}
use marrow_os.Fat16.Files.{
  FatFileDescriptor, FatState, put, error_int, error_code, seek_to, get_descriptor, set_descriptor,
  finish_seek, fat16_seek, fat16_read,
}
use marrow_os.Fat16.Files.Reading.{file_at, contents, get_descriptor-some, fat16_read-contents}

abbrev pub seek_set : ℕ
seek_set = 0

abbrev pub seek_cur : ℕ
seek_cur = 1

abbrev pub seek_end : ℕ
seek_end = 2

pub put-here :
    (ds : ℕ → Option FatFileDescriptor) (ptr : ℕ) (d : Option FatFileDescriptor)
    → put ds ptr d ptr ≡ d
put-here ds ptr d = rw (==_refl ptr) refl

put-put :
    (ds : ℕ → Option FatFileDescriptor) (ptr : ℕ) (d d' : Option FatFileDescriptor)
    → put (put ds ptr d) ptr d' ≡ put ds ptr d'
put-put ds ptr d d' = fun_ext λ p. ground arith

module _ (a : Allocator) (s : FatState a.State) (ptr node at : ℕ) (copy : ItemCopy)
    (opened : s.descriptors ptr ≡ some (file_at node copy at)) where
  -- The state in which the file stands at another position.
  abbrev pub moved : ℕ → FatState a.State
  moved at' = record s { descriptors = put s.descriptors ptr (some (file_at node copy at')) }

  seek_inside :
      (offset mode : ℕ)
      → offset < copy.item.filesize
      → fat16_seek a ptr offset mode s
        ≡ some ((seek_to mode offset at).0, moved (seek_to mode offset at).1)
  unfolding fat16_seek finish_seek set_descriptor
  seek_inside offset mode h =
      let inside : leb copy.item.filesize offset ≡ false = ground arith in
      >>=-some (get_descriptor a ptr) _ s s (file_at node copy at)
        (get_descriptor-some a ptr s (file_at node copy at) opened)
      ∙ rw inside refl

  seek_outside :
      (offset mode : ℕ)
      → copy.item.filesize ≤ offset
      → fat16_seek a ptr offset mode s ≡ some (negsuc 0, s)
  unfolding fat16_seek error_int error_code
  seek_outside offset mode h =
      let outside : leb copy.item.filesize offset ≡ true = ground arith in
      >>=-some (get_descriptor a ptr) _ s s (file_at node copy at)
        (get_descriptor-some a ptr s (file_at node copy at) opened)
      ∙ rw outside refl

  -- On an open file fat16_seek to an offset that is not below the file's size fails with -EIO, also
  -- from the current position, and leaves the state; below it SEEK_SET moves to the offset, SEEK_CUR
  -- on by it, past the end too, and SEEK_END fails with -EUNIMP, the position kept.
  pub fat16_seek-positions :
      (offset : ℕ)
      → ((mode : ℕ)
          → copy.item.filesize ≤ offset
          → fat16_seek a ptr offset mode s ≡ some (negsuc 0, s))
        × (offset < copy.item.filesize
            → (fat16_seek a ptr offset seek_set s ≡ some (pos 0, moved offset))
              × (fat16_seek a ptr offset seek_cur s ≡ some (pos 0, moved ((at + offset) % 2 ^ 32)))
              × (fat16_seek a ptr offset seek_end s ≡ some (negsuc 6, moved at)))
  unfolding seek_to error_int error_code
  fat16_seek-positions offset = (
    λ mode h. seek_outside offset mode h,
    λ h. (
      seek_inside offset seek_set h,
      seek_inside offset seek_cur h,
      seek_inside offset seek_end h,
    ),
  )

  -- Where the file system is mounted and the clusters of an open file form a chain in reach,
  -- fat16_seek to the start of a cluster below the file's size and then fat16_read of one member
  -- give the contents from there on, wherever the file stood before, and move its position behind
  -- them.
  pub fat16_read-fat16_seek :
      (disk : Disk) (fs_private : FatPrivate) (m : IsMounted disk fs_private) (clusters : List ℕ)
      (chain : Chain disk fs_private (fat16_get_first_cluster copy.item) clusters) (k size : ℕ)
      → s.fs_private ≡ some fs_private
      → k * cluster_size disk fs_private < copy.item.filesize
      → k < suc (length clusters)
      → size < 2 ^ 31
      → k * cluster_size disk fs_private + size ≤ length (contents disk fs_private copy clusters)
      → length (contents disk fs_private copy clusters) ≤ 2 ^ 31
      → (fat16_seek a ptr (k * cluster_size disk fs_private) seek_set >>= λ _.
            fat16_read a disk ptr size 1)
          s
        ≡ some (
          (
            pos 1,
            take size
                (drop (k * cluster_size disk fs_private) (contents disk fs_private copy clusters)),
          ),
          moved (k * cluster_size disk fs_private + size),
        )
  fat16_read-fat16_seek disk fs_private m clusters chain k size mounted below inside w h b =
      let start = k * cluster_size disk fs_private in
      let there : FatState a.State = moved start in
      >>=-some (fat16_seek a ptr start seek_set) _ s there (pos 0)
        ((fat16_seek-positions start).1 below).0
      ∙ fat16_read-contents a disk fs_private m node copy clusters chain there ptr k size mounted
          (put-here s.descriptors ptr (some (file_at node copy start))) inside w h b
      ∙ ap
          (λ ds. some (
            (pos 1, take size (drop start (contents disk fs_private copy clusters))),
            record s { descriptors = ds },
          ))
          (put-put s.descriptors ptr (some (file_at node copy start))
            (some (file_at node copy (start + size))))
