-- ===== src/Fat16/Chain/Reads.antt =====
-- `fat16_read_internal` in src/fs/fat/fat16.c against the contents of a file's clusters.
use marrow_os.Base.{
  ℕ, zero, suc, ◌+◌, ◌-◌, ◌*◌, ◌/◌, ◌%◌, ◌^◌, ◌<◌, ◌≤◌, lt→ltb, ltb_le, ◌≡◌, refl, sym, ap, ◌∙◌,
  List, [], ◌∷◌, ◌++◌, some, arith, length, take, drop, length-append, take-append_le,
  take-append_add, drop-append_add, drop-suc, drop_lt, length-drop, Option, dec_lt,
}
use native.Mathlib.Nat.{add-mul, one-mul, mod-lt}
use marrow_os.Streamer.{Disk}
use marrow_os.Streamer.Stream.{disk_bytes, disk_bytes-append}
use marrow_os.Fat16.{FatPrivate, Res, ok}
use marrow_os.Fat16.Chain.{read_chain, fat16_read_internal}
use marrow_os.Fat16.Chain.Contents.{
  length-disk_bytes, take-disk_bytes, IsMounted, Chain, cluster_size, cluster_start, file_bytes,
  read_chain_last, read_chain_more, read_part-disk_bytes,
}

module _ (disk : Disk) (fs_private : FatPrivate) where
  abbrev bytes_of : List ℕ → List ℕ
  bytes_of clusters = file_bytes disk fs_private clusters

  abbrev size : ℕ
  size = cluster_size disk fs_private

  abbrev first_bytes : ℕ → List ℕ
  first_bytes target = disk_bytes disk (cluster_start disk fs_private target) size

  length-bytes_of :
      (target : ℕ) (others : List ℕ)
      → length (bytes_of (target ∷ others)) ≡ size + length (bytes_of others)
  unfolding file_bytes
  length-bytes_of target others =
      length-append (first_bytes target) (bytes_of others)
      ∙ ap (λ (n : ℕ). n + length (bytes_of others))
          (length-disk_bytes disk (cluster_start disk fs_private target) size)

  take-bytes_of_first :
      (total target : ℕ) (others : List ℕ)
      → total ≤ size
      → take total (bytes_of (target ∷ others))
        ≡ disk_bytes disk (cluster_start disk fs_private target) total
  unfolding file_bytes
  take-bytes_of_first total target others h =
      take-append_le total (first_bytes target) (bytes_of others)
        (omega (arith, length-disk_bytes disk (cluster_start disk fs_private target) size))
      ∙ take-disk_bytes disk total (cluster_start disk fs_private target) size h

  take-bytes_of_more :
      (total target : ℕ) (others : List ℕ)
      → size < total
      → take total (bytes_of (target ∷ others))
        ≡ first_bytes target ++ take (total - size) (bytes_of others)
  unfolding file_bytes
  take-bytes_of_more total target others h =
      ap (λ n. take n (bytes_of (target ∷ others))) {x = total}
        {y = length (first_bytes target) + (total - size)}
        (omega (arith, length-disk_bytes disk (cluster_start disk fs_private target) size))
      ∙ take-append_add (first_bytes target) (bytes_of others) (total - size)

  next_place : (k : ℕ) → suc k * size ≡ k * size + size
  next_place k =
      ap (λ i. i * size) {x = suc k} {y = k + 1} (omega arith)
      ∙ add-mul k 1 size
      ∙ ap (λ s. k * size + s) (one-mul size)

  -- As many bytes as `k` clusters have are those of the first `k`.
  drop-bytes_of :
      (k : ℕ) (clusters : List ℕ)
      → k < length clusters
      → drop (k * size) (bytes_of clusters) ≡ bytes_of (drop k clusters)
  unfolding file_bytes
  drop-bytes_of zero clusters h =
      ap (λ i. drop i (bytes_of clusters)) {x = zero * size} {y = zero} (omega arith)
  drop-bytes_of (suc k) [] h = absurd (omega arith)
  drop-bytes_of (suc k) (target ∷ others) h =
      ap (λ i. drop i (bytes_of (target ∷ others))) {x = suc k * size}
        {y = length (first_bytes target) + k * size}
        (omega
          (arith, next_place k, length-disk_bytes disk (cluster_start disk fs_private target) size))
      ∙ drop-append_add (first_bytes target) (bytes_of others) (k * size)
      ∙ drop-bytes_of k others (omega arith)

  module _ (m : IsMounted disk fs_private) (cluster : ℕ) (clusters : List ℕ)
      (chain : Chain disk fs_private cluster clusters) where
    -- The stream of the reads, and what is left for it from the cluster in place `k` on.
    abbrev reads : ℕ → ℕ → ℕ → Option (Res (List ℕ))
    reads fuel offset total =
        read_chain fuel disk fs_private fs_private.cluster_read_stream cluster offset total

    place_below :
        (k target : ℕ) (others : List ℕ)
        → k * size + length (bytes_of (target ∷ others)) ≤ 2 ^ 31
        → k * size < 2 ^ 31
    place_below k target others b = omega (arith, length-bytes_of target others, m.sectors)

    read_chain_in_first :
        (fuel k total target : ℕ) (others : List ℕ)
        → drop k (cluster ∷ clusters) ≡ target ∷ others
        → total ≤ size
        → k * size + length (bytes_of (target ∷ others)) ≤ 2 ^ 31
        → reads (suc fuel) (k * size) total ≡ some (ok (take total (bytes_of (target ∷ others))))
    read_chain_in_first fuel k total target others at h b =
        read_chain_last disk fs_private m cluster clusters chain k target others at
          (place_below k target others b) fuel total h
        ∙ ap (λ bs. some (ok bs)) (sym (take-bytes_of_first total target others h))

    read_chain-take :
        (fuel k total target : ℕ) (others : List ℕ)
        → drop k (cluster ∷ clusters) ≡ target ∷ others
        → total < fuel
        → total ≤ length (bytes_of (target ∷ others))
        → k * size + length (bytes_of (target ∷ others)) ≤ 2 ^ 31
        → reads fuel (k * size) total ≡ some (ok (take total (bytes_of (target ∷ others))))
    unfolding file_bytes
    read_chain-take zero k total target others at f h b = absurd (omega arith)
    read_chain-take (suc fuel) k total target [] at f h b =
        read_chain_in_first fuel k total target [] at (omega (arith, length-bytes_of target [])) b
    read_chain-take (suc fuel) k total target (next ∷ others) at f h b = elim (dec_lt size total) [
      | no last ↦ read_chain_in_first fuel k total target (next ∷ others) at (omega arith) b
      | yes more ↦
          let split = length-bytes_of target (next ∷ others) in
          let rest =
            ap (λ i. reads fuel i (total - size)) (sym (next_place k))
            ∙ read_chain-take fuel (suc k) (total - size) next others
                (drop-suc k (cluster ∷ clusters) at) (omega (arith, m.sectors))
                (omega (arith, split)) (omega (arith, split, next_place k)) in
          read_chain_more disk fs_private m cluster clusters chain k target (next ∷ others) at
            (place_below k target (next ∷ others) b) fuel total
            (take (total - size) (bytes_of (next ∷ others))) more rest
          ∙ ap (λ bs. some (ok bs)) (sym (take-bytes_of_more total target (next ∷ others) more))
    ]

    -- Where the streams are the disk's, the clusters of a file form a chain in reach, and they
    -- hold no more than 2 ^ 31 bytes, fat16_read_internal from the start of one of its clusters
    -- gives as many bytes of its contents from there on as are asked for, up to the end of its
    -- last cluster.
    pub fat16_read_internal-contents :
        (k total : ℕ)
        → k < length (cluster ∷ clusters)
        → k * size + total ≤ length (bytes_of (cluster ∷ clusters))
        → length (bytes_of (cluster ∷ clusters)) ≤ 2 ^ 31
        → fat16_read_internal disk fs_private cluster (k * size) total
          ≡ some (ok (take total (drop (k * size) (bytes_of (cluster ∷ clusters)))))
    unfolding fat16_read_internal
    fat16_read_internal-contents k total inside h b =
        let (target, others, at) = drop_lt k (cluster ∷ clusters) inside in
        let rest : drop (k * size) (bytes_of (cluster ∷ clusters)) ≡ bytes_of (target ∷ others) =
          drop-bytes_of k (cluster ∷ clusters) inside ∙ ap bytes_of at in
        let left : length (bytes_of (target ∷ others))
            ≡ length (bytes_of (cluster ∷ clusters)) - k * size =
          ap length (sym rest) ∙ length-drop (k * size) (bytes_of (cluster ∷ clusters)) in
        read_chain-take (total + 1) k total target others at (omega arith) (omega (arith, left))
          (omega (arith, left))
        ∙ ap (λ bs. some (ok (take total bs))) (sym rest)

    -- One round reads on from any offset.
    read_chain_once :
        (fuel offset total target : ℕ) (others : List ℕ)
        → drop (offset / size) (cluster ∷ clusters) ≡ target ∷ others
        → offset < 2 ^ 31
        → total ≤ size
        → cluster_start disk fs_private target + offset % size + total < 2 ^ 31
        → reads (suc fuel) offset total
          ≡ some (ok (disk_bytes disk (cluster_start disk fs_private target + offset % size) total))
    unfolding read_chain
    read_chain_once fuel offset total target others at below h low =
        let none_left : total - total ≡ 0 = omega arith in
        rw
          (
            lt→ltb _ _ below,
            ltb_le size total h,
            read_part-disk_bytes disk fs_private cluster clusters offset total target others m chain
                at (λ r. low),
            ltb_le size total h,
            none_left,
            read_chain,
          )
          refl

    next_start :
        (target : ℕ)
        → 2 ≤ target
        → cluster_start disk fs_private (target + 1) ≡ cluster_start disk fs_private target + size
    next_start target h =
        let sectors = fs_private.header.primary_header.sectors_per_cluster in
        let ahead : (target + 1 - 2) * sectors ≡ (target - 2) * sectors + 1 * sectors =
          ap (λ (i : ℕ). i * sectors) {x = target + 1 - 2} {y = target - 2 + 1} (omega arith)
          ∙ add-mul (target - 2) 1 sectors in
        omega (arith, ahead)

    -- A request of at most one cluster that starts inside a cluster of the chain, reaches its end
    -- or beyond and ends below position 2 ^ 31 is filled up with the first bytes of the cluster
    -- whose number is one higher, whichever cluster the chain has next.
    pub fat16_read_internal-runs_over :
        (offset total target : ℕ) (others : List ℕ)
        → drop (offset / size) (cluster ∷ clusters) ≡ target ∷ others
        → 2 ≤ target
        → offset < 2 ^ 31
        → total ≤ size
        → size ≤ offset % size + total
        → cluster_start disk fs_private target + offset % size + total < 2 ^ 31
        → fat16_read_internal disk fs_private cluster offset total
          ≡ some (
              ok (
                disk_bytes disk
                  (cluster_start disk fs_private target + offset % size)
                  (size - offset % size)
                ++ disk_bytes disk
                    (cluster_start disk fs_private (target + 1))
                    (offset % size + total - size)))
    unfolding fat16_read_internal
    fat16_read_internal-runs_over offset total target others at in_data below h over low =
        let within : offset % size < size = mod-lt offset (omega (arith, m.sectors)) in
        let start = cluster_start disk fs_private target + offset % size in
        ap (λ i. reads i offset total) {x = total + 1} {y = suc total} (omega arith)
        ∙ read_chain_once total offset total target others at below h low
        ∙ ap (λ n. some (ok (disk_bytes disk start n))) {x = total}
            {y = size - offset % size + (offset % size + total - size)} (omega arith)
        ∙ ap (λ bs. some (ok bs))
            (sym
              (disk_bytes-append disk (size - offset % size) start (offset % size + total - size)))
        ∙ ap
            (λ i. some (
              ok (
                disk_bytes disk start (size - offset % size)
                ++ disk_bytes disk i (offset % size + total - size))))
            {x = start + (size - offset % size)} {y = cluster_start disk fs_private (target + 1)}
            (omega (arith, next_start target in_data))
