-- ===== src/Sharding/Plan/Bins.antt =====
-- What a shard holds, and which shard has the least load.
use stryker_js_effect.Prelude.{
  ℕ, zero, suc, ltb, nat_eq, text_eq, take, Bool, not, ◌&&◌, ◌||◌, Option, none, some, List, [],
  ◌∷◌, map, get_elem?, sort_by, length, if◌then◌else◌,
}
use stryker_js_effect.Sharding.Plan.{CostNumbers, PlannedMutant}

-- `indicesOf`.
abbrev pub indices_from : ℕ → ℕ → List ℕ
indices_from start zero = []
indices_from start (suc count) = start ∷ indices_from (suc start) count

abbrev pub indices_of : ℕ → List ℕ
indices_of count = indices_from 0 count

-- The index to begin with.
abbrev pub first_of : List ℕ → ℕ
first_of [] = 0
first_of (index ∷ indices) = index

module _ (costs : CostNumbers) where
  open costs use {numbers}
  open numbers use {Number, of_ℕ, plus, less}

  pub record Bin : Type 0 where
    pub mutants : List (PlannedMutant costs)
    pub load : Number

  abbrev pub empty_bin : Bin
  empty_bin = record { mutants = []; load = of_ℕ 0 }

  abbrev pub empty_bins : ℕ → List Bin
  empty_bins zero = []
  empty_bins (suc count) = empty_bin ∷ empty_bins count

  abbrev pub load_of : Option Bin → Number
  load_of none = empty_bin.load
  load_of (some bin) = bin.load

  abbrev pub load_at : List Bin → ℕ → Number
  load_at bins index = load_of (get_elem? bins index)

  -- `indices.reduce`, from the best index so far.
  abbrev pub best_from : List Bin → ℕ → List ℕ → ℕ
  best_from bins best [] = best
  best_from bins best (index ∷ indices) =
      best_from bins (if less (load_at bins index) (load_at bins best) then index else best) indices

  unfoldable pub least_loaded_of : List Bin → List ℕ → ℕ
  least_loaded_of bins indices = best_from bins (first_of indices) indices

  pub record LoadedBin : Type 0 where
    pub index : ℕ
    pub load : Number

  -- `compareLoadedBins` is negative: the load decides, then the index.
  abbrev pub loaded_before : LoadedBin → LoadedBin → Bool
  loaded_before left right =
      less left.load right.load || not (less right.load left.load) && ltb left.index right.index

  unfoldable pub least_loaded_indices_of : List Bin → ℕ → List ℕ
  least_loaded_indices_of bins count =
      map (λ entry. entry.index)
        (take count (
          sort_by loaded_before (
            map (λ index. record { index = index; load = load_at bins index })
              (indices_of (length bins)))))

  -- `bins.map` that changes the bin at one index.
  abbrev pub update_at : (Bin → Bin) → List Bin → ℕ → List Bin
  update_at change [] index = []
  update_at change (bin ∷ bins) zero = change bin ∷ bins
  update_at change (bin ∷ bins) (suc index) = bin ∷ update_at change bins index

  abbrev pub reserve : Number → Bin → Bin
  reserve cost_ms bin = record { mutants = bin.mutants; load = plus bin.load cost_ms }

  abbrev pub reserved_bin : List Bin → ℕ → Number → List Bin
  reserved_bin bins index cost_ms = update_at (reserve cost_ms) bins index

  abbrev pub reserved_bins : List Bin → List ℕ → Number → List Bin
  reserved_bins bins [] cost_ms = bins
  reserved_bins bins (index ∷ indices) cost_ms =
      reserved_bins (reserved_bin bins index cost_ms) indices cost_ms
