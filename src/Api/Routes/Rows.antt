-- ===== src/Api/Routes/Rows.antt =====
-- The rows of a page of `block_txs` in crates/nightfrost-api/src/routes.rs: an index and the hash of
-- its transaction.
use nightfrost.Prelude.{
  ℕ, zero, suc, ◌+◌, ◌≡◌, refl, ap, ◌∙◌, List, [], ◌∷◌, ltb, length, take, last?, map, arith,
}
use nightfrost.Bytes.{Bytes, to_be}
use nightfrost.Api.Routes.Blocks.{map_option}
use nightfrost.Api.Routes.BlockTxs.{last_position}

module _ (hash_at : ℕ → Bytes) where
  unfoldable pub row : ℕ → ℕ × Bytes
  row i = (i, hash_at i)

  take-take-map : (m : ℕ) (is : List ℕ) → take m (map row (take (suc m) is)) ≡ map row (take m is)
  take-take-map zero is = refl
  take-take-map (suc m) [] = refl
  take-take-map (suc m) (i ∷ is) = ap (λ l. row i ∷ l) (take-take-map m is)

  pub take-map-take :
      (m : ℕ) (is : List ℕ) → take m (map row (take (m + 1) is)) ≡ map row (take m is)
  take-map-take m is =
      let more : m + 1 ≡ suc m = omega arith in
      ap (λ k. take m (map row (take k is))) more ∙ take-take-map m is

  ltb-length :
      (m : ℕ) (is : List ℕ) → ltb m (length (map row (take (suc m) is))) ≡ ltb m (length is)
  ltb-length zero [] = refl
  ltb-length zero (i ∷ is) = ground arith
  ltb-length (suc m) [] = refl
  ltb-length (suc m) (i ∷ is) = ground (arith, ltb-length m is)

  pub length-map-take :
      (m : ℕ) (is : List ℕ) → ltb m (length (map row (take (m + 1) is))) ≡ ltb m (length is)
  length-map-take m is =
      let more : m + 1 ≡ suc m = omega arith in
      ap (λ k. ltb m (length (map row (take k is)))) more ∙ ltb-length m is

  pub last-map-row : (is : List ℕ) → last_position (map row is) ≡ map_option (to_be 4) (last? is)
  unfolding row
  last-map-row [] = refl
  last-map-row (i ∷ []) = refl
  last-map-row (i ∷ j ∷ is) = last-map-row (j ∷ is)

  pub map-map-row : (is : List ℕ) → map (λ (x : ℕ × Bytes). x.1) (map row is) ≡ map hash_at is
  unfolding row
  map-map-row [] = refl
  map-map-row (i ∷ is) = ap (λ l. hash_at i ∷ l) (map-map-row is)
