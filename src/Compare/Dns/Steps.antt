-- ===== src/Compare/Dns/Steps.antt =====
-- What one round of DedupDNSByQuery does to the rows that are kept.
use quarantine_lab.Prelude.{
  ℕ, ◌+◌, ◌≡◌, refl, sym, ap, ◌∙◌, inl, inr, Bool, true, false, ◌||◌, not, Option, none, some, List,
  [], ◌∷◌, ◌++◌, arith, Bool-cases, Option-cases, ltb, if◌then◌else◌,
}
use quarantine_lab.Prelude.Text.{Text, text_eq, text_eq→eq}
use quarantine_lab.Cases.{lookup}
use quarantine_lab.Compare.Dns.{
  DnsRow, DedupState, looks_like_ip, source_priority, query_name, existing_answers, add_answers,
  merge_dns_answers, dedup_row,
}

-- A name that is kept
abbrev pub counted : Text → Bool
counted q = not (text_eq q [] || looks_like_ip q)

-- The better of two priorities
abbrev pub better : Option ℕ → ℕ → Option ℕ
better none p = some p
better (some n) p = some (if ltb n p then p else n)

-- The best priority among the rows with a name, and one that there was before
abbrev pub best_from : Text → Option ℕ → List DnsRow → Option ℕ
best_from q now [] = now
best_from q now (r ∷ rs) =
    best_from q (if text_eq q (query_name r) then better now (source_priority r.source) else now) rs

abbrev pub held_of : Option DnsRow → Option ℕ
held_of none = none
held_of (some r) = some (source_priority r.source)

-- The priority of the row that is kept for a name
abbrev pub held : Text → List (Text × DnsRow) → Option ℕ
held q best = held_of (lookup q best)

abbrev pub one_if : Bool → ℕ
one_if true = 1
one_if false = 0

-- How often a name stands in the order
abbrev pub times : Text → List Text → ℕ
times q [] = 0
times q (x ∷ xs) = one_if (text_eq q x) + times q xs

abbrev pub one_if_some {ℓ} : {A : Type ℓ} → Option A → ℕ
one_if_some none = 0
one_if_some (some a) = 1

times-append :
    (q : Text) (xs : List Text) (x : Text)
    → times q (xs ++ (x ∷ [])) ≡ times q xs + one_if (text_eq q x)
times-append q [] x = omega arith
times-append q (y ∷ xs) x = omega (arith, times-append q xs x)

-- A merge keeps all but the answers.
merge_dns_answers-kept :
    (dst src : DnsRow)
    → (query_name (merge_dns_answers dst src) ≡ query_name dst)
      × ((merge_dns_answers dst src).source ≡ dst.source)
unfolding merge_dns_answers query_name
merge_dns_answers-kept dst src = kept (add_answers (existing_answers dst.answers) src.answers) refl
  where
    kept :
        (l : List Text)
        → add_answers (existing_answers dst.answers) src.answers ≡ l
        → (query_name (merge_dns_answers dst src) ≡ query_name dst)
          × ((merge_dns_answers dst src).source ≡ dst.source)
    kept [] e = rw (merge_dns_answers, e) (refl, refl)
    kept (s ∷ v) e = rw (merge_dns_answers, e) (refl, refl)

-- The names of the order are those of the kept rows, each once, and a row is kept below its name.
pub record Agrees (st : DedupState) : Type 0 where
  pub once : (q : Text) → times q st.order ≡ one_if_some (lookup q st.best)
  pub named : (q : Text) (r : DnsRow) → lookup q st.best ≡ some r → query_name r ≡ q
  pub kept_names : (q : Text) (r : DnsRow) → lookup q st.best ≡ some r → counted q ≡ true

some_of : {A : Type 0} {a b : A} → some a ≡ some b → a ≡ b
some_of {a} e = ap (λ o. elim o [ none ↦ a | some c ↦ c ]) e

-- A row is put below its name.
put_row :
    (st : DedupState) (order : List Text) (q : Text) (r : DnsRow)
    → Agrees st
    → counted q ≡ true
    → query_name r ≡ q
    → ((x : Text) → times x order ≡ one_if_some (lookup x ((q, r) ∷ st.best)))
    → Agrees (record { best = (q, r) ∷ st.best; order = order })
unfolding lookup
put_row st order q r a c n once = record {
  once = once;
  named = λ x s h. elim (Bool-cases (text_eq x q)) [
    | inl e ↦ (ap query_name (sym (some_of (rw e at h))) ∙ n) ∙ sym (text_eq→eq x q e)
    | inr e ↦ a.named x s (rw e at h)
  ];
  kept_names = λ x s h. elim (Bool-cases (text_eq x q)) [
    | inl e ↦ ap counted (text_eq→eq x q e) ∙ c
    | inr e ↦ a.kept_names x s (rw e at h)
  ];
}

replaced_once :
    (st : DedupState) (q : Text) (prev r : DnsRow)
    → Agrees st
    → lookup q st.best ≡ some prev
    → (x : Text) → times x st.order ≡ one_if_some (lookup x ((q, r) ∷ st.best))
unfolding lookup
replaced_once st q prev r a h x = elim (Bool-cases (text_eq x q)) [
  | inl e ↦
      a.once x
      ∙ ap (λ y. one_if_some (lookup y st.best)) (text_eq→eq x q e)
      ∙ ap one_if_some h
      ∙ (rw e refl)
  | inr e ↦ rw e (a.once x)
]

added_once :
    (st : DedupState) (q : Text) (r : DnsRow)
    → Agrees st
    → lookup q st.best ≡ none
    → (x : Text) → times x (st.order ++ (q ∷ [])) ≡ one_if_some (lookup x ((q, r) ∷ st.best))
unfolding lookup
added_once st q r a h x = elim (Bool-cases (text_eq x q)) [
  | inl e ↦
      let zero_times : times x st.order ≡ 0 =
        a.once x ∙ ap (λ y. one_if_some (lookup y st.best)) (text_eq→eq x q e) ∙ ap one_if_some h in
      rw e (omega (arith, times-append x st.order q, zero_times, ap one_if e))
  | inr e ↦ rw e (omega (arith, times-append x st.order q, a.once x, ap one_if e))
]

not_refused : (q : Text) → (text_eq q [] || looks_like_ip q) ≡ false → counted q ≡ true
not_refused q e = rw e refl

abbrev refused : Text → Bool
refused q = text_eq q [] || looks_like_ip q

-- The four ways of a round
data Round (st : DedupState) (r : DnsRow) : DedupState → Type 0 where
  skips : refused (query_name r) ≡ true → Round st r st
  adds :
      refused (query_name r) ≡ false
      → lookup (query_name r) st.best ≡ none
      → Round st r
          (record { best = (query_name r, r) ∷ st.best; order = st.order ++ (query_name r ∷ []) })
  replaces :
      (prev : DnsRow)
      → refused (query_name r) ≡ false
      → lookup (query_name r) st.best ≡ some prev
      → ltb (source_priority prev.source) (source_priority r.source) ≡ true
      → Round st r (record st { best = (query_name r, r) ∷ st.best })
  merges :
      (prev : DnsRow)
      → refused (query_name r) ≡ false
      → lookup (query_name r) st.best ≡ some prev
      → ltb (source_priority prev.source) (source_priority r.source) ≡ false
      → Round st r (record st { best = (query_name r, merge_dns_answers prev r) ∷ st.best })

dedup_row-Round : (st : DedupState) (r : DnsRow) → Round st r (dedup_row st r)
unfolding dedup_row
dedup_row-Round st r = elim (Bool-cases (refused (query_name r))) [
  | inl e ↦ rw (dedup_row, e) (skips e)
  | inr e ↦ elim (Option-cases (lookup (query_name r) st.best)) [
    | inl h ↦ rw (dedup_row, e, h) (adds e h)
    | inr (prev, h) ↦
        elim (Bool-cases (ltb (source_priority prev.source) (source_priority r.source))) [
          | inl k ↦ rw (dedup_row, e, h, k) (replaces prev e h k)
          | inr k ↦ rw (dedup_row, e, h, k) (merges prev e h k)
        ]
  ]
]

Round-Agrees :
    (st : DedupState) (r : DnsRow) (st' : DedupState) → Round st r st' → Agrees st → Agrees st'
Round-Agrees st r _ (skips e) a = a
Round-Agrees st r _ (adds e h) a =
    put_row st (st.order ++ (query_name r ∷ [])) (query_name r) r a (not_refused _ e) refl
      (added_once st (query_name r) r a h)
Round-Agrees st r _ (replaces prev e h k) a =
    put_row st st.order (query_name r) r a (not_refused _ e) refl
      (replaced_once st (query_name r) prev r a h)
Round-Agrees st r _ (merges prev e h k) a =
    put_row st st.order (query_name r) (merge_dns_answers prev r) a (not_refused _ e)
      ((merge_dns_answers-kept prev r).0 ∙ a.named (query_name r) prev h)
      (replaced_once st (query_name r) prev (merge_dns_answers prev r) a h)

pub dedup_row-Agrees : (st : DedupState) (r : DnsRow) → Agrees st → Agrees (dedup_row st r)
dedup_row-Agrees st r a = Round-Agrees st r (dedup_row st r) (dedup_row-Round st r) a

abbrev after : DedupState → DnsRow → Text → Option ℕ
after st r x =
    if text_eq x (query_name r)
    then better (held x st.best) (source_priority r.source)
    else held x st.best

-- A row that is put below its name changes what is held for that name only.
put_held :
    (st : DedupState) (r s : DnsRow) (x : Text)
    → better (held (query_name r) st.best) (source_priority r.source)
      ≡ some (source_priority s.source)
    → held x ((query_name r, s) ∷ st.best) ≡ after st r x
unfolding lookup
put_held st r s x h = elim (Bool-cases (text_eq x (query_name r))) [
  | inl e ↦
      rw (lookup, e)
        (sym (
          ap (λ y. better (held y st.best) (source_priority r.source))
            (text_eq→eq x (query_name r) e)
          ∙ h))
  | inr e ↦ rw (lookup, e) refl
]

Round-held :
    (st : DedupState) (r : DnsRow) (st' : DedupState) (x : Text)
    → counted x ≡ true
    → Round st r st'
    → held x st'.best ≡ after st r x
Round-held st r _ x c (skips e) = elim (Bool-cases (text_eq x (query_name r))) [
  | inl k ↦ absurd (clash (refused x) c (ap refused (text_eq→eq x (query_name r) k) ∙ e))
  | inr k ↦ rw k refl
]
  where
    clash : (b : Bool) → not b ≡ true → b ≡ true → ⊥
    clash b m n = ground arith
Round-held st r _ x c (adds e h) = put_held st r r x (rw h refl)
Round-held st r _ x c (replaces prev e h k) = put_held st r r x (rw (h, k) refl)
Round-held st r _ x c (merges prev e h k) =
    put_held st r (merge_dns_answers prev r) x
      (rw (h, k) (ap (λ t. some (source_priority t)) (sym (merge_dns_answers-kept prev r).1)))

-- What one round does to the priority that is held for a name that is kept
pub dedup_row-held :
    (st : DedupState) (r : DnsRow) (x : Text)
    → counted x ≡ true
    → held x (dedup_row st r).best ≡ (
        if text_eq x (query_name r)
        then better (held x st.best) (source_priority r.source)
        else held x st.best)
dedup_row-held st r x c = Round-held st r (dedup_row st r) x c (dedup_row-Round st r)
