-- ===== src/Python/Sorting/Laws.antt =====
-- Lemmas on membership in the lists that stand for sets.
use Prim.Native.String.{[], ◌∷◌}
use mathlib.Core.List.{List, [], ◌∷◌}
use gov_engine.Prelude.{
  String, true, ◌≡◌, ◌≢◌, ◌⊎◌, ◌↔◌, inl, inr, refl, sym, ◌∙◌, ◌==◌, eq_iff, Bool-cases, In,
  ne_of_eqb-false,
}
use gov_engine.Python.Text.{in_texts}
use gov_engine.Python.Sorting.{text_lt, insert_text, sorted_set, without, from_keys, non_empty}

In-insert_text : (s t : String) (ts : List String) → In t (insert_text s ts) ↔ ((s ≡ t) ⊎ In t ts)
unfolding insert_text
In-insert_text s t [] = (λ h. h, λ h. h)
In-insert_text s t (u ∷ ts) = elim (Bool-cases (text_lt s u)) [
  | inl less ↦ rw less (λ h. h, λ h. h)
  | inr more ↦ elim (Bool-cases (s == u)) [
    | inl e ↦
        let same = (eq_iff s u).0 e in
        rw (more, e) (λ h. inr h, λ h. elim h [ inl a ↦ inl (sym same ∙ a) | inr there ↦ there ])
    | inr e ↦
        let ih = In-insert_text s t ts in
        rw (more, e)
          (
            λ h. elim h [
              | inl a ↦ inr (inl a)
              | inr there ↦ elim (ih.0 there) [ inl b ↦ inl b | inr c ↦ inr (inr c) ]
            ],
            λ h. elim h [
              | inl a ↦ inr (ih.1 (inl a))
              | inr there ↦ elim there [ inl b ↦ inl b | inr c ↦ inr (ih.1 (inr c)) ]
            ],
          )
  ]
]

pub In-sorted_set : (t : String) (ts : List String) → In t (sorted_set ts) ↔ In t ts
unfolding sorted_set
In-sorted_set t [] = (λ h. h, λ h. h)
In-sorted_set t (s ∷ ts) =
    let inserted = In-insert_text s t (sorted_set ts) in
    let ih = In-sorted_set t ts in
    (
      λ h. elim (inserted.0 h) [ inl a ↦ inl a | inr there ↦ inr (ih.0 there) ],
      λ h. elim h [ inl a ↦ inserted.1 (inl a) | inr there ↦ inserted.1 (inr (ih.1 there)) ],
    )

In-without : (s t : String) (ts : List String) → In t (without s ts) ↔ ((s ≢ t) × In t ts)
unfolding without
In-without s t [] = (λ h. elim h [ ], λ h. h.1)
In-without s t (u ∷ ts) =
    let ih = In-without s t ts in
    elim (Bool-cases (s == u)) [
      | inl e ↦
          let same = (eq_iff s u).0 e in
          rw e (
            λ h. ((ih.0 h).0, inr (ih.0 h).1),
            λ h. elim h.1 [ inl a ↦ absurd (h.0 (same ∙ a)) | inr there ↦ ih.1 (h.0, there) ],
          )
      | inr e ↦ rw e (
        λ h. elim h [
          | inl a ↦ (λ q. ne_of_eqb-false s u e (q ∙ sym a), inl a)
          | inr there ↦ ((ih.0 there).0, inr (ih.0 there).1)
        ],
        λ h. elim h.1 [ inl a ↦ inl a | inr there ↦ inr (ih.1 (h.0, there)) ],
      )
    ]

pub In-from_keys : (t : String) (ts : List String) → In t (from_keys ts) ↔ In t ts
unfolding from_keys
In-from_keys t [] = (λ h. h, λ h. h)
In-from_keys t (s ∷ ts) =
    let rest = In-without s t (from_keys ts) in
    let ih = In-from_keys t ts in
    (
      λ h. elim h [ inl a ↦ inl a | inr there ↦ inr (ih.0 (rest.0 there).1) ],
      λ h. elim (Bool-cases (s == t)) [
        | inl e ↦ inl ((eq_iff s t).0 e)
        | inr e ↦ elim h [
          | inl a ↦ inl a
          | inr there ↦ inr (rest.1 (ne_of_eqb-false s t e, ih.1 there))
        ]
      ],
    )

pub In-non_empty : (t : String) (ts : List String) → In t (non_empty ts) ↔ ((t ≢ "") × In t ts)
unfolding non_empty
In-non_empty t [] = (λ h. elim h [ ], λ h. h.1)
In-non_empty t (s ∷ ts) =
    let ih = In-non_empty t ts in
    elim (Bool-cases (s == "")) [
      | inl e ↦
          let same = (eq_iff s "").0 e in
          rw e (
            λ h. ((ih.0 h).0, inr (ih.0 h).1),
            λ h. elim h.1 [ inl a ↦ absurd (h.0 (sym a ∙ same)) | inr there ↦ ih.1 (h.0, there) ],
          )
      | inr e ↦ rw e (
        λ h. elim h [
          | inl a ↦ (λ q. ne_of_eqb-false s "" e (a ∙ q), inl a)
          | inr there ↦ ((ih.0 there).0, inr (ih.0 there).1)
        ],
        λ h. elim h.1 [ inl a ↦ inl a | inr there ↦ inr (ih.1 (h.0, there)) ],
      )
    ]

-- The Boolean test of membership.
pub In_of_in_texts : (s : String) (ts : List String) → in_texts s ts ≡ true → In s ts
In_of_in_texts s [] e = cc
In_of_in_texts s (t ∷ ts) e = elim (Bool-cases (s == t)) [
  | inl same ↦ inl (sym ((eq_iff s t).0 same))
  | inr other ↦ inr (In_of_in_texts s ts (rw other at e))
]

pub in_texts_of_In : (s : String) (ts : List String) → In s ts → in_texts s ts ≡ true
in_texts_of_In s [] h = elim h [ ]
in_texts_of_In s (t ∷ ts) h = elim (Bool-cases (s == t)) [
  | inl same ↦ rw same refl
  | inr other ↦ elim h [
    | inl first ↦ absurd (ne_of_eqb-false s t other (sym first))
    | inr later ↦ rw other (in_texts_of_In s ts later)
  ]
]
