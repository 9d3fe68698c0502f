-- ===== src/Frecov/Tests.antt =====
-- A small image of frecov/frecov.c: 8 sectors of 512 bytes, two of them in a cluster. The first cluster
-- starts with the long entry of the name "ab.c" and its short entry.
use oslab.Prelude.{
  ℕ, ◌+◌, ◌-◌, ◌*◌, ◌≤◌, ◌<◌, ◌≡◌, refl, arith, List, [], ◌∷◌, ◌++◌, replicate, length, get_or,
  Ends, returns, ltb, if◌then◌else◌, true,
}
use oslab.Klib.Mem.{Memory}
use oslab.Frecov.{
  u16, u32, attr, copy_entry, copy_name, data_sec, bytes_per_clus, header, cluster_to_sec,
  get_data_clus, is_fat, long_name, next_name, named, recover, data_sec,
}
use oslab.Frecov.Names.{next_name-length}
use oslab.Frecov.Traverse.{recover-Ends}
use oslab.Frecov.Clusters.{IsImage, data_start, clusters_tile}

abbrev head : List ℕ
head = replicate 12 0 ++ (2 ∷ 2 ∷ 1 ∷ 0 ∷ 1 ∷ []) ++ replicate 15 0 ++ (8 ∷ 0 ∷ 0 ∷ 0 ∷ 1 ∷ [])

abbrev entries : List ℕ
entries =
    (65 ∷ 97 ∷ 0 ∷ 98 ∷ 0 ∷ 46 ∷ 0 ∷ 99 ∷ 0 ∷ 0 ∷ 0 ∷ 15 ∷ 0 ∷ 0 ∷ [])
    ++ replicate 12 255
    ++ (0 ∷ 0 ∷ [])
    ++ replicate 4 255

abbrev image : Memory
image a =
    if ltb a 510
    then get_or head a 0
    else if ltb a 512
    then 85 * (a - 509)
    else if ltb a 1024
    then 0
    else get_or entries (a - 1024) 0

abbrev stored : List ℕ
stored = 97 ∷ 98 ∷ 46 ∷ 99 ∷ 0 ∷ []

abbrev ab_c : List ℕ
ab_c = 97 ∷ 98 ∷ 46 ∷ 99 ∷ []

image_next : next_name 2048 1024 image ≡ named stored 1056
unfolding next_name long_name attr copy_entry copy_name u16
image_next = refl

next_name-length_example : length stored < 256
next_name-length_example = next_name-length 2048 1024 1056 stored image image_next

image_clus : bytes_per_clus (header image) ≡ 1024
unfolding bytes_per_clus header u16
image_clus = refl

image-is_fat : is_fat 4096 (header image) ≡ true
unfolding is_fat header u16 u32
image-is_fat = refl

recover-Ends_example : Ends (recover 34 4096 image)
recover-Ends_example = recover-Ends 34 4096 image (omega (arith, image_clus))

image_start : data_start (header image) ≡ 1024
unfolding header data_sec u16 u32
image_start = refl

image-IsImage : IsImage 4096 (header image)
image-IsImage = record {
  clus_pos = omega (arith, image_clus);
  size_lt = omega arith;
  starts = omega (arith, image_start);
}

clusters_tile_example :
    (n : ℕ) × (get_data_clus 4096 (header image) ≡ returns n)
    × ((k : ℕ)
        → k < n
        → (cluster_to_sec (2 + k) (header image)
            ≡ data_start (header image) + bytes_per_clus (header image) * k)
          × (cluster_to_sec (2 + k) (header image) + bytes_per_clus (header image) ≤ 4096))
    × (4096 < data_start (header image) + bytes_per_clus (header image) * (n + 1))
clusters_tile_example = clusters_tile 4096 (header image) image-IsImage
