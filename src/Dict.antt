-- ===== src/Dict.antt =====
-- Python's `dict` and `OrderedDict` with text keys, as lists of entries in order.
use robinhoodpools.Prelude.{
  ℕ, zero, suc, ◌≤◌, String, ◌≡◌, refl, Option, none, some, List, [], ◌∷◌, ◌++◌, arith, str_eq,
  eq_iff, if◌then◌else◌, length,
}

abbrev pub Dict {ℓ} : Type ℓ → Type ℓ
Dict V = List (String × V)

module _ {ℓ} {V : Type ℓ} where
  -- `d.get(k)`
  unfoldable pub get : String → Dict V → Option V
  get k [] = none
  get k ((j, v) ∷ d) = if str_eq j k then some v else get k d

  -- `d[k] = v`: an entry that is there keeps its place, a new one goes to the end.
  unfoldable pub put : String → V → Dict V → Dict V
  put k v [] = (k, v) ∷ []
  put k v ((j, w) ∷ d) = if str_eq j k then (k, v) ∷ d else (j, w) ∷ put k v d

  -- `d.pop(k, None)`, `del d[k]`
  unfoldable pub remove : String → Dict V → Dict V
  remove k [] = []
  remove k ((j, w) ∷ d) = let rest = remove k d in if str_eq j k then rest else (j, w) ∷ rest

  -- `d[k] = v; d.move_to_end(k)`
  unfoldable pub put_last : String → V → Dict V → Dict V
  unfolding remove
  put_last k v d = remove k d ++ (k, v) ∷ []

  -- `while len(d) > n: d.popitem(last=False)`, where `extra` is how many there are too many
  unfoldable pub drop_first : ℕ → Dict V → Dict V
  drop_first zero d = d
  drop_first (suc extra) [] = []
  drop_first (suc extra) (e ∷ d) = drop_first extra d

  pub get-put :
      (k j : String) (v : V) (d : Dict V)
      → get j (put k v d) ≡ (if str_eq k j then some v else get j d)
  unfolding get put
  get-put k j v [] = refl
  get-put k j v ((i, w) ∷ d) = ground (arith, eq_iff k j, eq_iff i k, eq_iff i j, get-put k j v d)

  pub get-remove :
      (k j : String) (d : Dict V) → get j (remove k d) ≡ (if str_eq k j then none else get j d)
  unfolding get remove
  get-remove k j [] = ground arith
  get-remove k j ((i, w) ∷ d) = ground (arith, eq_iff k j, eq_iff i k, eq_iff i j, get-remove k j d)

  pub get-put_last :
      (k j : String) (v : V) (d : Dict V)
      → get j (put_last k v d) ≡ (if str_eq k j then some v else get j d)
  unfolding get put_last remove
  get-put_last k j v [] = refl
  get-put_last k j v ((i, w) ∷ d) =
      ground (arith, eq_iff k j, eq_iff i k, eq_iff i j, get-put_last k j v d)

  pub length-remove : (k : String) (d : Dict V) → length (remove k d) ≤ length d
  unfolding remove
  length-remove k [] = omega arith
  length-remove k ((j, w) ∷ d) = ground (arith, length-remove k d)
