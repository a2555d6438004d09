-- ===== src/Symbols/Placed.antt =====
-- What a scope finds after a symbol is put into it (core/ipyflow/data_model/scope.py and namespace.py).
use ipyflow.Base.{
  ℕ, suc, ◌≡◌, refl, ap, subst, ◌∙◌, Bool, true, false, some, [], ◌∷◌, eqb_ℤ_iff, Bool-cases,
  ==_iff, inl, inr, ◌==◌, ◌&&◌, not, if◌then◌else◌, arith,
}
use mathlib.Core.Option.{some-injective}
use ipyflow.Symbols.{
  Name, text, index, other, name_eq, Table, Space, Python, Store, write_symbol, write_space,
}
use ipyflow.Symbols.Spaces.{
  find, put_in, put, is_text, is_subscript_type, yes_subscript, no_subscript, lookup_subscript,
  lookup_own, lookup_this_indentation,
}

name_eq_sound : (a b : Name) → name_eq a b ≡ true → a ≡ b
unfolding name_eq
name_eq_sound (text a) (text b) h = ap text ((==_iff a b).0 h)
name_eq_sound (index a) (index b) h = ap index ((eqb_ℤ_iff a b).0 h)
name_eq_sound (other a) (other b) h = ap other ((==_iff a b).0 h)
name_eq_sound (text a) (index b) h = absurd (ground (arith, h))
name_eq_sound (text a) (other b) h = absurd (ground (arith, h))
name_eq_sound (index a) (text b) h = absurd (ground (arith, h))
name_eq_sound (index a) (other b) h = absurd (ground (arith, h))
name_eq_sound (other a) (text b) h = absurd (ground (arith, h))
name_eq_sound (other a) (index b) h = absurd (ground (arith, h))

name_eq_refl : (a : Name) → name_eq a a ≡ true
unfolding name_eq
name_eq_refl (text a) = (==_iff a a).1 refl
name_eq_refl (index a) = (eqb_ℤ_iff a a).1 refl
name_eq_refl (other a) = (==_iff a a).1 refl

pub find-put_in :
    (m n : Name) (r : ℕ) (t : Table)
    → find m (put_in n r t) ≡ (if name_eq m n then some r else find m t)
unfolding find put_in
find-put_in m n r [] = refl
find-put_in m n r ((k, q) ∷ t) =
    ground (
      arith,
      find-put_in m n r t,
      ap (name_eq m),
      name_eq_sound n k,
      λ (e : n ≡ k). ap (name_eq m) e,
    )

-- whether the symbol goes to the table of subscripts
abbrev pub in_subscripts : Store → ℕ → ℕ → Bool
in_subscripts st self r =
    (st.space self).is_namespace && is_subscript_type (st.symbol r).symbol_type

find-put_in_same : (n : Name) (r : ℕ) (t : Table) → find n (put_in n r t) ≡ some r
find-put_in_same n r t = find-put_in n n r t ∙ rw (name_eq_refl n) refl

-- where a lookup finds a symbol in the tables of the scope itself
module _ (py : Python) (st : Store) (self r fuel : ℕ) (skip_cloned : Bool) (name : Name) where
  lookup_as_subscript :
      (st.space self).is_namespace ≡ true
      → find name (st.space self).subscript_symbol_by_name ≡ some r
      → lookup_this_indentation (suc fuel) py st self yes_subscript skip_cloned name ≡ some r
  unfolding lookup_this_indentation lookup_own
  lookup_as_subscript n e = rw (n, lookup_subscript, e) refl

  lookup_as_member :
      find name (st.space self).symbol_by_name ≡ some r
      → lookup_this_indentation (suc fuel) py st self no_subscript skip_cloned name ≡ some r
  unfolding lookup_this_indentation lookup_own
  lookup_as_member e = elim (Bool-cases (st.space self).is_namespace) [
    | inr plain ↦ rw (plain, e) refl
    | inl ns ↦ rw (ns, e) refl
  ]

module _ (py : Python) (st : Store) (self r : ℕ) (name : Name) where
  -- what the symbol's place is, after the call
  abbrev pub IsPlaced : ℕ → Bool → Store → Type 0
  IsPlaced fuel skip_cloned st' =
      (lookup_this_indentation (suc fuel) py st' self
          (if in_subscripts st self r then yes_subscript else no_subscript) skip_cloned name
        ≡ some r)
      × ((st'.symbol r).containing_scope ≡ self)
      × ((m : Name)
          → find m (st'.space self).symbol_by_name ≡ (
              if not (in_subscripts st self r) && name_eq m name
              then some r
              else find m (st.space self).symbol_by_name))
      × ((m : Name)
          → find m (st'.space self).subscript_symbol_by_name ≡ (
              if in_subscripts st self r && name_eq m name
              then some r
              else find m (st.space self).subscript_symbol_by_name))
      × ((scope : ℕ) → (if scope == self then st.space self else st'.space scope) ≡ st.space scope)

  with_space : Space → Store
  with_space placed =
      write_symbol (write_space st self placed) r (record (st.symbol r) { containing_scope = self })

  with_space_self : (placed : Space) → (with_space placed).space self ≡ placed
  unfolding with_space write_symbol write_space
  with_space_self placed = ground arith

  with_space-scope : (placed : Space) → ((with_space placed).symbol r).containing_scope ≡ self
  unfolding with_space write_symbol write_space
  with_space-scope placed = ground arith

  with_space-other :
      (placed : Space) (scope : ℕ)
      → (if scope == self then st.space self else (with_space placed).space scope) ≡ st.space scope
  unfolding with_space write_symbol write_space
  with_space-other placed scope = ground (arith, λ (e : scope ≡ self). ap st.space e)

  abbrev as_subscript : Space
  as_subscript = record (st.space self) {
    subscript_symbol_by_name = put_in name r (st.space self).subscript_symbol_by_name;
  }

  abbrev as_member : Space
  as_member = record (st.space self) {
    symbol_by_name = put_in name r (st.space self).symbol_by_name;
  }

  subscript-IsPlaced :
      (fuel : ℕ) (skip_cloned : Bool)
      → (st.space self).is_namespace ≡ true
      → in_subscripts st self r ≡ true
      → IsPlaced fuel skip_cloned (with_space as_subscript)
  subscript-IsPlaced fuel skip_cloned ns sub = (
    rw sub (
        lookup_as_subscript py (with_space as_subscript) self r fuel skip_cloned name
          (ap (λ z. z.is_namespace) (with_space_self as_subscript) ∙ ns)
          (ap (λ z. find name z.subscript_symbol_by_name) (with_space_self as_subscript)
            ∙ find-put_in_same name r (st.space self).subscript_symbol_by_name)),
    with_space-scope as_subscript,
    λ m. ap (λ z. find m z.symbol_by_name) (with_space_self as_subscript) ∙ rw sub refl,
    λ m.
        ap (λ z. find m z.subscript_symbol_by_name) (with_space_self as_subscript)
        ∙ rw sub (find-put_in m name r (st.space self).subscript_symbol_by_name),
    with_space-other as_subscript,
  )

  member-IsPlaced :
      (fuel : ℕ) (skip_cloned : Bool)
      → in_subscripts st self r ≡ false
      → IsPlaced fuel skip_cloned (with_space as_member)
  member-IsPlaced fuel skip_cloned sub = (
    rw sub (
        lookup_as_member py (with_space as_member) self r fuel skip_cloned name (
          ap (λ z. find name z.symbol_by_name) (with_space_self as_member)
          ∙ find-put_in_same name r (st.space self).symbol_by_name)),
    with_space-scope as_member,
    λ m.
        ap (λ z. find m z.symbol_by_name) (with_space_self as_member)
        ∙ rw sub (find-put_in m name r (st.space self).symbol_by_name),
    λ m. ap (λ z. find m z.subscript_symbol_by_name) (with_space_self as_member) ∙ rw sub refl,
    with_space-other as_member,
  )

-- A symbol that a scope takes under a name is found there by that name, as a subscript where it is one;
-- its scope is the one that took it; each table finds by other names what it found before; and no
-- other scope changes.
pub put_lem :
    (py : Python) (st st' : Store) (self r fuel : ℕ) (name : Name) (skip_cloned : Bool)
    → put st self name r ≡ some st'
    → IsPlaced py st self r name fuel skip_cloned st'
unfolding put with_space
put_lem py st st' self r fuel name skip_cloned h =
    let bad = (st.space self).is_namespace && not (in_subscripts st self r) && not (is_text name) in
    elim (Bool-cases bad) [
      | inl y ↦ absurd (ground (arith, rw y at h))
      | inr n ↦ elim (Bool-cases (in_subscripts st self r)) [
        | inl sub ↦
            subst (IsPlaced py st self r name fuel skip_cloned)
              (some-injective _ _ (rw (n, sub) at h))
              (subscript-IsPlaced py st self r name fuel skip_cloned (ground (arith, sub)) sub)
        | inr sub ↦
            subst (IsPlaced py st self r name fuel skip_cloned)
              (some-injective _ _ (rw (n, sub) at h))
              (member-IsPlaced py st self r name fuel skip_cloned sub)
      ]
    ]
