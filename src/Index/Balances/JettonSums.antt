-- ===== src/Index/Balances/JettonSums.antt =====
-- The sum of the amounts of a jetton in a BalanceChanges of ton-index-go/index/balances.go.
use ton_indexer.Prelude.{
  ◌+◌, ◌≡◌, refl, ap, eq_iff, String, Bool, true, false, [], ◌∷◌, if◌then◌else◌, str_eq, Bool-cases,
  inl, inr,
}
use ton_indexer.Prelude.Int.{ℤ, pos, pos_part, neg_part, ◌+ℤ◌, ◌-ℤ◌, int_laws, eq_of_parts}
use ton_indexer.Prelude.GoMap.{GoMap, lookup, insert}
use ton_indexer.Index.Balances.{
  BalanceChanges, jettons_or_empty, amount_or_0, jetton_of, set_jetton, add_jetton, merge_amounts,
  merge_jettons,
}

-- What CalculateBalanceChanges does for a transfer of jettons.
abbrev pub moved : String → String → String → ℤ → BalanceChanges → BalanceChanges
moved sender receiver jetton amount changes =
    add_jetton receiver jetton amount false (add_jetton sender jetton amount true changes)

-- Two equal integers, by their parts.
abbrev Same : ℤ → ℤ → Type 0
Same a b = pos_part a + neg_part b ≡ pos_part b + neg_part a

module _ (j : String) where
  -- An amount, if it is of the jetton.
  abbrev amount_if : Bool → ℤ → ℤ
  amount_if b v = if b then v else pos 0

  abbrev pub sum_amounts : GoMap ℤ → ℤ
  sum_amounts [] = pos 0
  sum_amounts ((jetton, v) ∷ m) = amount_if (str_eq jetton j) v +ℤ sum_amounts m

  abbrev pub sum_jettons : GoMap (GoMap ℤ) → ℤ
  sum_jettons [] = pos 0
  sum_jettons ((addr, amounts) ∷ m) = sum_amounts amounts +ℤ sum_jettons m

  sum_amounts-insert :
      (k : String) (v : ℤ) (m : GoMap ℤ)
      → Same
          (sum_amounts (insert k v m) +ℤ amount_if (str_eq k j) (amount_or_0 (lookup k m)))
          (sum_amounts m +ℤ amount_if (str_eq k j) v)
  unfolding insert lookup
  sum_amounts-insert k v [] = elim (Bool-cases (str_eq k j)) [
    | inl e ↦ rw e (omega int_laws)
    | inr e ↦ rw e (omega int_laws)
  ]
  sum_amounts-insert k v ((name, old) ∷ m) =
      let rest = sum_amounts-insert k v m in
      elim (Bool-cases (str_eq name k)) [
        | inl e ↦
            let same : str_eq name j ≡ str_eq k j = ap (λ x. str_eq x j) ((eq_iff name k).0 e) in
            rw (e, same) (omega int_laws)
        | inr e ↦ rw e (omega (int_laws, rest))
      ]

  sum_jettons-insert :
      (addr : String) (amounts : GoMap ℤ) (m : GoMap (GoMap ℤ))
      → Same
          (sum_jettons (insert addr amounts m) +ℤ sum_amounts (jettons_or_empty (lookup addr m)))
          (sum_jettons m +ℤ sum_amounts amounts)
  unfolding insert lookup
  sum_jettons-insert addr amounts [] = omega int_laws
  sum_jettons-insert addr amounts ((name, old) ∷ m) = elim (Bool-cases (str_eq name addr)) [
    | inl e ↦ rw e (omega int_laws)
    | inr e ↦ rw e (omega (int_laws, sum_jettons-insert addr amounts m))
  ]

  sum_jettons-set_jetton :
      (addr jetton : String) (v : ℤ) (m : GoMap (GoMap ℤ))
      → Same
          (sum_jettons (set_jetton addr jetton v m)
            +ℤ amount_if (str_eq jetton j) (jetton_of addr jetton m))
          (sum_jettons m +ℤ amount_if (str_eq jetton j) v)
  unfolding set_jetton
  sum_jettons-set_jetton addr jetton v m =
      let old = jettons_or_empty (lookup addr m) in
      omega
        (int_laws, sum_jettons-insert addr (insert jetton v old) m, sum_amounts-insert jetton v old)

  sum_jettons-merge_amounts :
      (addr : String) (amounts : GoMap ℤ) (m : GoMap (GoMap ℤ))
      → Same (sum_jettons (merge_amounts addr amounts m)) (sum_jettons m +ℤ sum_amounts amounts)
  unfolding merge_amounts
  sum_jettons-merge_amounts addr [] m = omega int_laws
  sum_jettons-merge_amounts addr ((jetton, v) ∷ amounts) m =
      let sum = jetton_of addr jetton m +ℤ v in
      let rest = sum_jettons-merge_amounts addr amounts (set_jetton addr jetton sum m) in
      let written = sum_jettons-set_jetton addr jetton sum m in
      elim (Bool-cases (str_eq jetton j)) [
        | inl e ↦ let w = rw e at written in rw e (omega (int_laws, rest, w))
        | inr e ↦ let w = rw e at written in rw e (omega (int_laws, rest, w))
      ]

  sum_jettons-merge_jettons :
      (other m : GoMap (GoMap ℤ))
      → Same (sum_jettons (merge_jettons other m)) (sum_jettons m +ℤ sum_jettons other)
  unfolding merge_jettons
  sum_jettons-merge_jettons [] m = omega int_laws
  sum_jettons-merge_jettons ((addr, amounts) ∷ other) m =
      let there = insert addr (jettons_or_empty (lookup addr m)) m in
      omega (
        int_laws,
        sum_jettons-merge_jettons other (merge_amounts addr amounts there),
        sum_jettons-merge_amounts addr amounts there,
        sum_jettons-insert addr (jettons_or_empty (lookup addr m)) m,
      )

  parts_of : {a b : ℤ} → a ≡ b → Same a b
  parts_of {a} {b} e = rw e refl

  pub merge_jettons-zero :
      (other m : GoMap (GoMap ℤ))
      → sum_jettons other ≡ pos 0
      → sum_jettons m ≡ pos 0
      → sum_jettons (merge_jettons other m) ≡ pos 0
  merge_jettons-zero other m a b =
      eq_of_parts _ _ (omega (int_laws, sum_jettons-merge_jettons other m, parts_of a, parts_of b))

  -- What the sender loses the receiver gets.
  pub add_jetton-zero :
      (sender receiver jetton : String) (amount : ℤ) (changes : BalanceChanges)
      → sum_jettons changes.jettons ≡ pos 0
      → sum_jettons (moved sender receiver jetton amount changes).jettons ≡ pos 0
  unfolding add_jetton
  add_jetton-zero sender receiver jetton amount changes z =
      let m = changes.jettons in
      let lost = jetton_of sender jetton m -ℤ amount in
      let between = set_jetton sender jetton lost m in
      let got = jetton_of receiver jetton between +ℤ amount in
      let first = sum_jettons-set_jetton sender jetton lost m in
      let second = sum_jettons-set_jetton receiver jetton got between in
      elim (Bool-cases (str_eq jetton j)) [
        | inl e ↦
            let f = rw e at first in
            let s = rw e at second in eq_of_parts _ _ (omega (int_laws, f, s, parts_of z))
        | inr e ↦
            let f = rw e at first in
            let s = rw e at second in eq_of_parts _ _ (omega (int_laws, f, s, parts_of z))
      ]
