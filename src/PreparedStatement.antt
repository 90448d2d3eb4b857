-- ===== src/PreparedStatement.antt =====
-- src/common/database/PreparedStatement.hpp: a statement's name and its parameters.
-- A null parameter is `none`. The overloads of `set_param` for strings are one function; the template
-- takes `std::to_string` as an argument. `debug_print` only prints.
use purity.Common.{
  ℕ, zero, suc, ◌+◌, ◌-◌, ◌≤◌, ◌<◌, ◌≡◌, refl, ap, List, [], ◌∷◌, ◌++◌, Option, none, some, length,
  replicate, get_or, leb, leb→le, ◌==◌, if◌then◌else◌, Bool-cases, inl, inr, arith, length-append,
  length-replicate,
}

pub record PreparedStatement : Type 0 where
  pub name : List ℕ
  pub params : List (Option (List ℕ))

unfoldable pub create : List ℕ → PreparedStatement
create name = record { name = name; params = [] }

-- `resize(index + 1)` appends null parameters.
unfoldable pub ensure_size : ℕ → PreparedStatement → PreparedStatement
ensure_size index p =
    if leb (length p.params) index
    then record p { params = p.params ++ replicate (index + 1 - length p.params) none }
    else p

-- `params_[index] = value`, of an index inside the vector.
unfoldable pub assign : List (Option (List ℕ)) → ℕ → Option (List ℕ) → List (Option (List ℕ))
assign [] index value = []
assign (p ∷ ps) zero value = value ∷ ps
assign (p ∷ ps) (suc index) value = p ∷ assign ps index value

unfoldable pub set_param : PreparedStatement → ℕ → List ℕ → PreparedStatement
set_param p index value =
    let sized = ensure_size index p in
    record sized { params = assign sized.params index (some value) }

unfoldable pub set_param_number :
    {A : Type 0} → (A → List ℕ) → PreparedStatement → ℕ → A → PreparedStatement
set_param_number to_string p index value =
    let sized = ensure_size index p in
    record sized { params = assign sized.params index (some (to_string value)) }

unfoldable pub set_null : PreparedStatement → ℕ → PreparedStatement
set_null p index =
    let sized = ensure_size index p in record sized { params = assign sized.params index none }

unfoldable pub clear : PreparedStatement → PreparedStatement
clear p = record p { params = [] }

get_or-append_none :
    (ps : List (Option (List ℕ))) (n j : ℕ)
    → get_or (ps ++ replicate n none) j none ≡ get_or ps j none
get_or-append_none [] zero j = refl
get_or-append_none [] (suc n) zero = refl
get_or-append_none [] (suc n) (suc j) = get_or-append_none [] n j
get_or-append_none (p ∷ ps) n zero = refl
get_or-append_none (p ∷ ps) n (suc j) = get_or-append_none ps n j

get_or-assign :
    (ps : List (Option (List ℕ))) (i j : ℕ) (value : Option (List ℕ))
    → i < length ps
    → get_or (assign ps i value) j none ≡ (if i == j then value else get_or ps j none)
unfolding assign
get_or-assign [] i j value h = absurd (omega arith)
get_or-assign (p ∷ ps) zero zero value h = refl
get_or-assign (p ∷ ps) zero (suc j) value h = ground arith
get_or-assign (p ∷ ps) (suc i) zero value h = ground arith
get_or-assign (p ∷ ps) (suc i) (suc j) value h =
    ground (arith, get_or-assign ps i j value (omega arith))

length-assign :
    (ps : List (Option (List ℕ))) (i : ℕ) (value : Option (List ℕ))
    → length (assign ps i value) ≡ length ps
unfolding assign
length-assign [] i value = refl
length-assign (p ∷ ps) zero value = refl
length-assign (p ∷ ps) (suc i) value = ap suc (length-assign ps i value)

ensure_size_lem :
    (i : ℕ) (p : PreparedStatement)
    → (i < length (ensure_size i p).params)
      × ((j : ℕ) → get_or (ensure_size i p).params j none ≡ get_or p.params j none)
unfolding ensure_size
ensure_size_lem i p = elim (Bool-cases (leb (length p.params) i)) [
  | inl e ↦
      let n = i + 1 - length p.params in
      let small : length p.params ≤ i = leb→le _ _ e in
      rw e (
        omega (
          arith,
          small,
          length-append p.params (replicate n none),
          length-replicate {A = Option (List ℕ)} n none,
        ),
        get_or-append_none p.params n,
      )
  | inr e ↦ rw e (ground arith, λ j. refl)
]

-- After a parameter is set, to a string, to a number or to null, it has that value and every other
-- parameter the value that it had, where a parameter behind the end counts as null.
pub params-set :
    {A : Type 0} (to_string : A → List ℕ) (p : PreparedStatement) (i j : ℕ) (str : List ℕ) (num : A)
    → (get_or (set_param p i str).params j none
        ≡ (if i == j then some str else get_or p.params j none))
      × (get_or (set_param_number to_string p i num).params j none
          ≡ (if i == j then some (to_string num) else get_or p.params j none))
      × (get_or (set_null p i).params j none ≡ (if i == j then none else get_or p.params j none))
unfolding set_param set_param_number set_null
params-set to_string p i j str num =
    let (inside, kept) = ensure_size_lem i p in
    let assigned : (value : Option (List ℕ))
        → get_or (assign (ensure_size i p).params i value) j none
          ≡ (if i == j then value else get_or p.params j none) =
      λ value. rw (get_or-assign (ensure_size i p).params i j value inside, kept j) refl in
    (assigned (some str), assigned (some (to_string num)), assigned none)
