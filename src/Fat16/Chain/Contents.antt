-- ===== src/Fat16/Chain/Contents.antt =====
-- What the clusters of a chain hold, and that reads in src/fs/fat/fat16.c give it.
use marrow_os.Base.{
  ℕ, zero, suc, ◌+◌, ◌-◌, ◌*◌, ◌/◌, ◌%◌, ◌^◌, ◌<◌, ◌≤◌, ◌≡◌, ◌≢◌, refl, ap, ◌∙◌, false, List, [],
  ◌∷◌, ◌++◌, Option, some, arith, lt→ltb, ltb_le, ==_ne, length, take, drop, drop-nil, subst,
}
use native.Mathlib.Nat.{mul-div_cancel, mul-mod_left, mod-lt, add-mul}
use marrow_os.Streamer.{sector_size, Disk, DiskStream, disk_streamer_seek}
use marrow_os.Streamer.Stream.{disk_byte, disk_bytes, disk_streamer_read-disk_bytes}
use marrow_os.Fat16.{Res, ok, FatPrivate, word_at}
use marrow_os.Fat16.Chain.{
  stream_read, fat16_cluster_to_sector, fat16_get_first_fat_sector, fat16_get_fat_entry, ends_chain,
  follow, size_of_cluster_bytes, fat16_get_cluster_for_offset, read_part, read_chain,
}

pub length-disk_bytes :
    (disk : Disk) (start total : ℕ) → length (disk_bytes disk start total) ≡ total
unfolding disk_bytes
length-disk_bytes disk start zero = refl
length-disk_bytes disk start (suc total) = ap suc (length-disk_bytes disk (start + 1) total)

pub take-disk_bytes :
    (disk : Disk) (n start total : ℕ)
    → n ≤ total
    → take n (disk_bytes disk start total) ≡ disk_bytes disk start n
unfolding disk_bytes
take-disk_bytes disk zero start total h = refl
take-disk_bytes disk (suc n) start zero h = absurd (omega arith)
take-disk_bytes disk (suc n) start (suc total) h =
    ap (λ t. disk_byte disk start ∷ t) (take-disk_bytes disk n (start + 1) total (omega arith))

stream_read_lem :
    (disk : Disk) (stream : DiskStream) (at total : ℕ)
    → stream.disk ≡ disk.address
    → at + total < 2 ^ 31
    → stream_read disk stream at total
      ≡ some (ok (disk_bytes disk at total, record stream { pos = at + total }))
unfolding stream_read disk_streamer_seek
stream_read_lem disk stream at total e h =
    rw
      (
        lt→ltb at (2 ^ 31) (omega arith),
        disk_streamer_read-disk_bytes disk (record stream { pos = at }) total e h,
      )
      refl

-- The 16-bit word of the disk at `at`.
abbrev pub disk_word : Disk → ℕ → ℕ
disk_word disk at = disk_byte disk at + 256 * disk_byte disk (at + 1)

word_at-disk_bytes : (disk : Disk) (at : ℕ) → word_at (disk_bytes disk at 2) 0 ≡ disk_word disk at
unfolding disk_bytes
word_at-disk_bytes disk at = refl

module _ (disk : Disk) (fs_private : FatPrivate) where
  abbrev pub header_sectors : ℕ
  header_sectors = fs_private.header.primary_header.sectors_per_cluster

  -- Where the entry of a cluster stands in the first allocation table, and where its data starts.
  abbrev pub fat_position : ℕ → ℕ
  fat_position cluster =
      fs_private.header.primary_header.reserved_sectors * sector_size + cluster * 2

  abbrev pub cluster_start : ℕ → ℕ
  cluster_start cluster =
      (fs_private.root_directory.ending_sector_pos + (cluster - 2) * header_sectors) * sector_size

  -- The streams are the disk's, and a cluster has sectors.
  pub record IsMounted : Type 0 where
    pub fat_stream : fs_private.fat_read_stream.disk ≡ disk.address
    pub cluster_stream : fs_private.cluster_read_stream.disk ≡ disk.address
    pub sectors : 0 < header_sectors

  -- A data cluster whose entry and whose bytes a position of 31 bits reaches.
  pub record InReach (cluster : ℕ) : Type 0 where
    pub is_data : 2 ≤ cluster
    pub entry : fat_position cluster + 2 < 2 ^ 31
    pub bytes : cluster_start cluster + header_sectors * sector_size < 2 ^ 31

  -- The clusters of a file from one on: each entry names the next.
  abbrev pub Chain : ℕ → List ℕ → Type 0
  Chain cluster [] = InReach cluster
  Chain cluster (next ∷ clusters) =
      InReach cluster
      × (disk_word disk (fat_position cluster) ≡ next)
      × (ends_chain next ≡ false)
      × Chain next clusters

  Chain-InReach : (cluster : ℕ) (clusters : List ℕ) → Chain cluster clusters → InReach cluster
  Chain-InReach cluster [] h = h
  Chain-InReach cluster (next ∷ clusters) h = h.0

  unfoldable pub file_bytes : List ℕ → List ℕ
  file_bytes [] = []
  file_bytes (cluster ∷ clusters) =
      disk_bytes disk (cluster_start cluster) (size_of_cluster_bytes fs_private)
      ++ file_bytes clusters

  fat16_get_fat_entry-disk_word :
      (cluster : ℕ)
      → IsMounted
      → InReach cluster
      → fat16_get_fat_entry disk fs_private cluster
        ≡ some (ok (disk_word disk (fat_position cluster)))
  unfolding fat16_get_fat_entry fat16_get_first_fat_sector
  fat16_get_fat_entry-disk_word cluster m r =
      let at : fat_position cluster % 2 ^ 32 ≡ fat_position cluster = omega (arith, r.entry) in
      rw
        (
          at,
          stream_read_lem disk fs_private.fat_read_stream (fat_position cluster) 2 m.fat_stream
              r.entry,
          fat16_get_fat_entry,
        )
        (ap (λ w. some (ok w)) (word_at-disk_bytes disk (fat_position cluster)))

  -- The walk of `k` entries ends at the cluster in place `k`.
  follow-drop :
      (k cluster : ℕ) (clusters : List ℕ) (target : ℕ) (others : List ℕ)
      → IsMounted
      → Chain cluster clusters
      → drop k (cluster ∷ clusters) ≡ target ∷ others
      → (follow disk fs_private k cluster ≡ some (ok target)) × Chain target others
  unfolding follow
  follow-drop zero cluster clusters target others m h e =
      let same : cluster ≡ target = cc in
      let rest : clusters ≡ others = cc in
      (
        ap (λ c. some (ok c)) same,
        subst (λ c. Chain c others) same (subst (λ cs. Chain cluster cs) rest h),
      )
  follow-drop (suc k) cluster [] target others m h e = cc (drop-nil {A = ℕ} k)
  follow-drop (suc k) cluster (next ∷ clusters) target others m (r, w, live, h) e =
      let (found, chain) = follow-drop k next clusters target others m h e in
      let entry : fat16_get_fat_entry disk fs_private cluster ≡ some (ok next) =
        fat16_get_fat_entry-disk_word cluster m r ∙ ap (λ c. some (ok c)) w in
      (rw (entry, live, follow) found, chain)

  cluster_position :
      (cluster within : ℕ)
      → InReach cluster
      → within < header_sectors * sector_size
      → (fat16_cluster_to_sector fs_private cluster * sector_size + within) % 2 ^ 32
        ≡ cluster_start cluster + within
  unfolding fat16_cluster_to_sector
  cluster_position cluster within r h =
      let ahead : (cluster + (2 ^ 32 - 2)) * header_sectors
          ≡ (cluster - 2) * header_sectors + 2 ^ 32 * header_sectors =
        ap (λ c. c * header_sectors) {x = cluster + (2 ^ 32 - 2)} {y = cluster - 2 + 2 ^ 32}
          (omega (arith, r.is_data))
        ∙ add-mul (cluster - 2) (2 ^ 32) header_sectors in
      omega (arith, ahead, r.bytes)

  abbrev pub cluster_size : ℕ
  cluster_size = size_of_cluster_bytes fs_private

  -- One read finds the cluster of the offset, and takes the bytes of the disk behind it.
  pub read_part-disk_bytes :
      (cluster : ℕ) (clusters : List ℕ) (offset total target : ℕ) (others : List ℕ)
      → IsMounted
      → Chain cluster clusters
      → drop (offset / cluster_size) (cluster ∷ clusters) ≡ target ∷ others
      → (InReach target → cluster_start target + offset % cluster_size + total < 2 ^ 31)
      → read_part disk fs_private fs_private.cluster_read_stream cluster offset total
        ≡ some (ok (disk_bytes disk (cluster_start target + offset % cluster_size) total))
  unfolding read_part fat16_get_cluster_for_offset
  read_part-disk_bytes cluster clusters offset total target others m h e b =
      let size_pos : 0 < cluster_size = omega (arith, m.sectors) in
      let nonzero : cluster_size ≢ 0 = λ e. omega arith in
      let within : offset % cluster_size < cluster_size = mod-lt offset size_pos in
      let (found, chain) =
        follow-drop (offset / cluster_size) cluster clusters target others m h e in
      let r = Chain-InReach target others chain in
      rw
        (
          ==_ne cluster_size 0 nonzero,
          found,
          cluster_position target (offset % cluster_size) r within,
          stream_read_lem disk fs_private.cluster_read_stream
              (cluster_start target + offset % cluster_size) total m.cluster_stream (b r),
          read_part,
        )
        refl

  module _ (m : IsMounted) (cluster : ℕ) (clusters : List ℕ) (chain : Chain cluster clusters)
      (k target : ℕ) (others : List ℕ) (at : drop k (cluster ∷ clusters) ≡ target ∷ others)
      (below : k * cluster_size < 2 ^ 31) where
    -- A read that starts with the cluster in place `k`.
    read_at_start :
        (total : ℕ)
        → total ≤ cluster_size
        → read_part disk fs_private fs_private.cluster_read_stream cluster (k * cluster_size) total
          ≡ some (ok (disk_bytes disk (cluster_start target) total))
    read_at_start total h =
        let size_pos : 0 < cluster_size = omega (arith, m.sectors) in
        let place : k * cluster_size / cluster_size ≡ k = mul-div_cancel k size_pos in
        read_part-disk_bytes cluster clusters (k * cluster_size) total target others m chain
          (ap (λ i. drop i (cluster ∷ clusters)) place ∙ at)
          (λ r. omega (arith, r.bytes, mul-mod_left k cluster_size))
        ∙ ap (λ i. some (ok (disk_bytes disk i total)))
            {x = cluster_start target + k * cluster_size % cluster_size} {y = cluster_start target}
            (omega (arith, mul-mod_left k cluster_size))

    abbrev chain_from : ℕ → ℕ → ℕ → Option (Res (List ℕ))
    chain_from fuel offset total =
        read_chain fuel disk fs_private fs_private.cluster_read_stream cluster offset total

    pub read_chain_last :
        (fuel total : ℕ)
        → total ≤ cluster_size
        → chain_from (suc fuel) (k * cluster_size) total
          ≡ some (ok (disk_bytes disk (cluster_start target) total))
    unfolding read_chain
    read_chain_last fuel total h =
        let none_left : total - total ≡ 0 = omega arith in
        rw
          (
            lt→ltb _ _ below,
            ltb_le cluster_size total h,
            read_at_start total h,
            ltb_le cluster_size total h,
            none_left,
            read_chain,
          )
          refl

    pub read_chain_more :
        (fuel total : ℕ) (rest : List ℕ)
        → cluster_size < total
        → chain_from fuel (k * cluster_size + cluster_size) (total - cluster_size) ≡ some (ok rest)
        → chain_from (suc fuel) (k * cluster_size) total
          ≡ some (ok (disk_bytes disk (cluster_start target) cluster_size ++ rest))
    unfolding read_chain
    read_chain_more fuel total rest h more =
        let some_left : total - cluster_size ≡ suc (total - cluster_size - 1) = omega arith in
        let rest_read = rw some_left at more in
        rw
          (
            lt→ltb _ _ below,
            lt→ltb _ _ h,
            read_at_start cluster_size (omega arith),
            lt→ltb _ _ h,
            some_left,
            lt→ltb _ _ h,
            rest_read,
            read_chain,
          )
          refl
