-- ===== src/Frecov/Clusters.antt =====
-- The clusters that `main` of frecov/frecov.c goes through, in the image.
use oslab.Prelude.{
  ℕ, zero, suc, ◌+◌, ◌-◌, ◌*◌, ◌/◌, ◌%◌, ◌^◌, ◌≤◌, ◌<◌, ◌≡◌, sym, ap, ◌∙◌, arith, returns,
}
use native.Mathlib.Nat.{
  mul-add, mul_comm, mul_assoc, mul-le-mul_left, add-mul-mod_self_left, mod-eq_of_lt, zero-mul,
  div-le_self, le-mul_of_pos_right, div-add-mod, mod-lt, add-mul, mul-suc,
}
use oslab.Frecov.{Header, bytes_per_clus, data_sec, cluster_to_sec, get_data_clus}

-- The header describes an image of `size` bytes, below 4 GiB, that holds the start of its data region.
pub record IsImage (size : ℕ) (hdr : Header) : Type 0 where
  pub clus_pos : 0 < bytes_per_clus hdr
  pub size_lt : size < 2 ^ 32
  pub starts : data_sec hdr * hdr.byts_per_sec ≤ size

-- The address of the data region.
abbrev pub data_start : Header → ℕ
data_start hdr = data_sec hdr * hdr.byts_per_sec

factor-pos : (a b : ℕ) → 0 < a * b → 0 < a
factor-pos zero b pos = absurd (omega (arith, zero-mul b))
factor-pos (suc a) b pos = omega arith

byts-pos : (hdr : Header) → 0 < bytes_per_clus hdr → 0 < hdr.byts_per_sec
unfolding bytes_per_clus
byts-pos hdr pos = factor-pos hdr.byts_per_sec hdr.sec_per_clus pos

get_data_clus-count :
    (size : ℕ) (hdr : Header)
    → IsImage size hdr
    → get_data_clus size hdr ≡ returns ((size - data_start hdr) / bytes_per_clus hdr)
unfolding get_data_clus
get_data_clus-count size hdr im =
    let start = data_start hdr in
    let no_wrap : start % 2 ^ 32 ≡ start = mod-eq_of_lt (omega (arith, im.starts, im.size_lt)) in
    let count_lt : (size - start) / bytes_per_clus hdr < 2 ^ 32 =
      omega (arith, im.size_lt, div-le_self (size - start) (bytes_per_clus hdr)) in
    rw no_wrap (ground (arith, im.clus_pos, im.starts, mod-eq_of_lt count_lt))

sectors_bytes : (ds k spc bps : ℕ) → (ds + k * spc) * bps ≡ ds * bps + bps * spc * k
sectors_bytes ds k spc bps =
    mul_comm (ds + k * spc) bps
    ∙ mul-add bps ds (k * spc)
    ∙ ap (λ (x : ℕ). x + bps * (k * spc)) (mul_comm bps ds)
    ∙ ap (λ (x : ℕ). ds * bps + bps * x) (mul_comm k spc)
    ∙ ap (λ (x : ℕ). ds * bps + x) (sym (mul_assoc bps spc k))

cluster_to_sec-address :
    (size k : ℕ) (hdr : Header)
    → 0 < hdr.byts_per_sec
    → data_start hdr + bytes_per_clus hdr * k < 2 ^ 32
    → cluster_to_sec (2 + k) hdr ≡ data_start hdr + bytes_per_clus hdr * k
unfolding cluster_to_sec bytes_per_clus
cluster_to_sec-address size k hdr pos lt =
    let ds = data_sec hdr in
    let spc = hdr.sec_per_clus in
    let bytes : (ds + k * spc) * hdr.byts_per_sec ≡ data_start hdr + hdr.byts_per_sec * spc * k =
      sectors_bytes ds k spc hdr.byts_per_sec in
    let sectors : (ds + (2 + k + 2 ^ 32 - 2) * spc) % 2 ^ 32 ≡ ds + k * spc =
      ap (λ (x : ℕ). (ds + x) % 2 ^ 32)
        (ap (λ (x : ℕ). x * spc) {y = k + 2 ^ 32} (omega arith) ∙ add-mul k (2 ^ 32) spc)
      ∙ ap (λ (x : ℕ). x % 2 ^ 32) {y = ds + k * spc + 2 ^ 32 * spc} (omega arith)
      ∙ add-mul-mod_self_left (ds + k * spc) (2 ^ 32) spc
      ∙ mod-eq_of_lt (omega (arith, lt, bytes, le-mul_of_pos_right (ds + k * spc) pos)) in
    rw sectors (rw bytes (mod-eq_of_lt lt))

-- In an image that is smaller than 4 GiB and holds the start of its data region, the clusters from 2 on
-- that `Get_Data_Clus` counts lie one behind the other from the start of the data region on, each of
-- them inside the image, and what is left behind the last is smaller than a cluster.
pub clusters_tile :
    (size : ℕ) (hdr : Header)
    → IsImage size hdr
    → (n : ℕ) × (get_data_clus size hdr ≡ returns n)
      × ((k : ℕ)
          → k < n
          → (cluster_to_sec (2 + k) hdr ≡ data_start hdr + bytes_per_clus hdr * k)
            × (cluster_to_sec (2 + k) hdr + bytes_per_clus hdr ≤ size))
      × (size < data_start hdr + bytes_per_clus hdr * (n + 1))
clusters_tile size hdr im =
    let b = bytes_per_clus hdr in
    let n = (size - data_start hdr) / b in
    let whole : b * n + (size - data_start hdr) % b ≡ size - data_start hdr =
      omega (arith, div-add-mod (size - data_start hdr) b) in
    (
      n,
      get_data_clus-count size hdr im,
      λ k lt.
          let fits : b * k + b ≤ b * n = omega (arith, mul-le-mul_left b lt, mul-suc b k) in
          let at =
            cluster_to_sec-address size k hdr (byts-pos hdr im.clus_pos)
              (omega (arith, fits, whole, im.starts, im.size_lt, im.clus_pos)) in
          (at, omega (arith, at, fits, whole, im.starts)),
      omega (arith, whole, im.starts, mod-lt (size - data_start hdr) im.clus_pos, mul-add b n 1),
    )
