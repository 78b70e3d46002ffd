-- ===== src/Compare/Dns/Best.antt =====
-- DedupDNSByQuery keeps one row for each name, of the best source.
use quarantine_lab.Prelude.{
  ℕ, ◌+◌, ◌≡◌, refl, sym, ap, ◌∙◌, inl, inr, false≢true, Bool, true, false, ◌&&◌, Option, none,
  some, List, [], ◌∷◌, arith, Bool-cases, Option-cases, ◌==◌, if◌then◌else◌,
}
use quarantine_lab.Prelude.Text.{Text, text_eq, text_eq→eq}
use quarantine_lab.Cases.{lookup}
use quarantine_lab.Compare.Dns.{
  DnsRow, DedupState, source_priority, query_name, dedup_row, dedup_loop, rows_of, row_less,
  insert_row, sort_rows, dedup_dns_by_query,
}
use quarantine_lab.Compare.Dns.Steps.{
  counted, best_from, held, one_if, times, one_if_some, Agrees, dedup_row-held, dedup_row-Agrees,
}

-- How many rows have a name and a priority
abbrev pub rows_with : Text → ℕ → List DnsRow → ℕ
rows_with q n [] = 0
rows_with q n (r ∷ rs) =
    one_if (text_eq q (query_name r) && source_priority r.source == n) + rows_with q n rs

dedup_loop-held :
    (st : DedupState) (rows : List DnsRow) (q : Text)
    → counted q ≡ true
    → held q (dedup_loop st rows).best ≡ best_from q (held q st.best) rows
unfolding dedup_loop
dedup_loop-held st [] q c = refl
dedup_loop-held st (r ∷ rs) q c =
    dedup_loop-held (dedup_row st r) rs q c ∙ ap (λ b. best_from q b rs) (dedup_row-held st r q c)

dedup_loop-Agrees : (st : DedupState) (rows : List DnsRow) → Agrees st → Agrees (dedup_loop st rows)
unfolding dedup_loop
dedup_loop-Agrees st [] a = a
dedup_loop-Agrees st (r ∷ rs) a = dedup_loop-Agrees (dedup_row st r) rs (dedup_row-Agrees st r a)

insert_row-rows_with :
    (q : Text) (n : ℕ) (r : DnsRow) (l : List DnsRow)
    → rows_with q n (insert_row r l) ≡ rows_with q n (r ∷ l)
unfolding insert_row
insert_row-rows_with q n r [] = refl
insert_row-rows_with q n r (x ∷ l) = elim (Bool-cases (row_less x r)) [
  | inl e ↦ rw (insert_row, e) (omega (arith, insert_row-rows_with q n r l))
  | inr e ↦ rw (insert_row, e) refl
]

sort_rows-rows_with :
    (q : Text) (n : ℕ) (l : List DnsRow) → rows_with q n (sort_rows l) ≡ rows_with q n l
unfolding sort_rows
sort_rows-rows_with q n [] = refl
sort_rows-rows_with q n (r ∷ l) =
    omega (arith, insert_row-rows_with q n r (sort_rows l), sort_rows-rows_with q n l)

-- Whether the row that is held has a priority
abbrev pub held_with : ℕ → Option ℕ → ℕ
held_with n none = 0
held_with n (some p) = one_if (p == n)

rows_of-absent :
    (best : List (Text × DnsRow)) (q : Text) (n : ℕ) (order : List Text)
    → ((x : Text) (r : DnsRow) → lookup x best ≡ some r → query_name r ≡ x)
    → times q order ≡ 0
    → rows_with q n (rows_of best order) ≡ 0
unfolding rows_of
rows_of-absent best q n [] named t = refl
rows_of-absent best q n (x ∷ xs) named t = elim (Option-cases (lookup x best)) [
  | inl h ↦ rw (rows_of, h) (rows_of-absent best q n xs named (omega (arith, t)))
  | inr (r, h) ↦
      let other : text_eq q (query_name r) ≡ false =
        rw (named x r h) (no_one (text_eq q x) (omega (arith, t))) in
      rw (rows_of, h)
        (rw other (omega (arith, rows_of-absent best q n xs named (omega (arith, t)))))
]
  where
    no_one : (b : Bool) → one_if b ≡ 0 → b ≡ false
    no_one true e = absurd (omega (arith, e))
    no_one false e = refl

rows_of-once :
    (best : List (Text × DnsRow)) (q : Text) (n : ℕ) (order : List Text)
    → ((x : Text) (r : DnsRow) → lookup x best ≡ some r → query_name r ≡ x)
    → times q order ≡ one_if_some (lookup q best)
    → rows_with q n (rows_of best order) ≡ held_with n (held q best)
unfolding rows_of
rows_of-once best q n [] named t = elim (Option-cases (lookup q best)) [
  | inl h ↦ rw h refl
  | inr (r, h) ↦ absurd (omega (arith, (rw h at t)))
]
rows_of-once best q n (x ∷ xs) named t = elim (Option-cases (lookup q best)) [
  | inl h ↦ rows_of-absent best q n (x ∷ xs) named (t ∙ ap one_if_some h) ∙ (rw h refl)
  | inr (s, k) ↦ elim (Bool-cases (text_eq q x)) [
    | inl e ↦
        let same : lookup x best ≡ some s = ap (λ y. lookup y best) (sym (text_eq→eq q x e)) ∙ k in
        let mine : text_eq q (query_name s) ≡ true = rw (named x s same) e in
        rw (rows_of, same, k)
          (rw mine (
            omega (
              arith,
              rows_of-absent best q n xs named (omega (arith, t, ap one_if e, ap one_if_some k)),
            )))
    | inr e ↦ elim (Option-cases (lookup x best)) [
      | inl h ↦ rw (rows_of, h) (rows_of-once best q n xs named (omega (arith, t, ap one_if e)))
      | inr (r, h) ↦
          let other : text_eq q (query_name r) ≡ false = rw (named x r h) e in
          rw (rows_of, h)
            (rw other
              (omega (arith, rows_of-once best q n xs named (omega (arith, t, ap one_if e)))))
    ]
  ]
]

abbrev pub nothing_kept : DedupState
nothing_kept = record { best = []; order = [] }

nothing_kept-Agrees : Agrees nothing_kept
unfolding lookup
nothing_kept-Agrees = record {
  once = λ q. refl;
  named = λ q r h. absurd (no_row h);
  kept_names = λ q r h. absurd (no_row h);
}
  where
    no_row : {r : DnsRow} → none ≡ some r → ⊥
    no_row e = cc

-- In the result, for every name and every priority of a source, the rows with both are: one, if the name
-- is neither empty nor an address, some row asks for it and the priority is the best of all the rows that
-- ask for it; none otherwise. So each name is kept exactly once, with a best source.
pub dedup_dns_by_query-rows_with :
    (rows : List DnsRow) (q : Text) (n : ℕ)
    → rows_with q n (dedup_dns_by_query rows)
      ≡ (if counted q then held_with n (best_from q none rows) else 0)
unfolding dedup_dns_by_query lookup
dedup_dns_by_query-rows_with rows q n =
    let st = dedup_loop nothing_kept rows in
    let a = dedup_loop-Agrees nothing_kept rows nothing_kept-Agrees in
    sort_rows-rows_with q n (rows_of st.best st.order) ∙ elim (Bool-cases (counted q)) [
      | inl c ↦
          rows_of-once st.best q n st.order a.named (a.once q)
          ∙ ap (held_with n) (dedup_loop-held nothing_kept rows q c)
          ∙ rw c refl
      | inr c ↦ elim (Option-cases (lookup q st.best)) [
        | inl h ↦
            rows_of-absent st.best q n st.order a.named (a.once q ∙ ap one_if_some h) ∙ rw c refl
        | inr (r, h) ↦ absurd (false≢true (sym c ∙ a.kept_names q r h))
      ]
    ]
