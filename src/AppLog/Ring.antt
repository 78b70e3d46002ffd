-- ===== src/AppLog/Ring.antt =====
-- What the buffer holds after any calls, and what it lists for a level.
use quarantine_lab.Prelude.{
  ℕ, suc, zero, ◌+◌, ◌-◌, ◌≤◌, ◌<◌, ◌≡◌, refl, sym, ap, ◌∙◌, Bool, true, false, List, [], ◌∷◌, ◌++◌,
  ltb, leb, if◌then◌else◌, length, length-append, length-drop, drop, arith, Bool-cases, inl, inr,
  ltb-ge,
}
use quarantine_lab.Prelude.Int.{ℤ, pos, negsuc}
use quarantine_lab.Prelude.Text.{Text}
use quarantine_lab.AppLog.{
  level_debug, level_info, level_warn, level_error, Entry, Buffer, new, default_max,
  normalize_level, rank_of, rank, entry, trim, add, at_least, lines_at_least, clear,
}

-- The calls that change a buffer.
pub data Call : Type 0 where
  adds : Text → Text → Text → Call
  clears : Call

unfoldable pub step : Buffer → Call → Buffer
unfolding add clear
step b (adds now level message) = add b now level message
step b clears = clear b

unfoldable pub run : Buffer → List Call → Buffer
unfolding step
run b [] = b
run b (c ∷ cs) = run (step b c) cs

-- All entries that were added since the last Clear.
unfoldable pub added_since : List Entry → List Call → List Entry
unfolding entry
added_since es [] = es
added_since es (adds now level message ∷ cs) = added_since (es ++ entry now level message ∷ []) cs
added_since es (clears ∷ cs) = added_since [] cs

-- The last `n` elements
unfoldable pub last : ℕ → List Entry → List Entry
last n es = drop (length es - n) es

unfoldable pub capacity : ℤ → ℕ
capacity (pos (suc n)) = suc n
capacity _ = default_max

drop-append_le : (k : ℕ) (xs ys : List Entry) → k ≤ length xs → drop k (xs ++ ys) ≡ drop k xs ++ ys
drop-append_le zero xs ys h = refl
drop-append_le (suc k) [] ys h = absurd (omega (arith, h))
drop-append_le (suc k) (x ∷ xs) ys h = drop-append_le k xs ys (omega (arith, h))

drop-nil : (k : ℕ) → drop {A = Entry} k [] ≡ []
drop-nil zero = refl
drop-nil (suc k) = refl

last-nil : (n : ℕ) → [] ≡ last n []
unfolding last
last-nil n = sym (drop-nil (0 - n))

drop-drop : (i j : ℕ) (xs : List Entry) → drop i (drop j xs) ≡ drop (j + i) xs
drop-drop i zero xs = ap (λ k. drop k xs) (omega arith)
drop-drop i (suc j) [] = drop-nil i ∙ sym (drop-nil (suc j + i))
drop-drop i (suc j) (x ∷ xs) =
    drop-drop i j xs ∙ ap (λ k. drop k (x ∷ xs)) {x = suc (j + i)} (omega arith)

trim-last : (n : ℕ) (es : List Entry) → trim n es ≡ last n es
unfolding trim last
trim-last n es = elim (Bool-cases (ltb n (length es))) [
  | inl long ↦ rw long refl
  | inr fits ↦ rw fits (ap (λ k. drop k es) (all_fit (length es) (ltb-ge n (length es) fits)))
]
  where
    all_fit : (l : ℕ) → l ≤ n → 0 ≡ l - n
    all_fit l h = omega (arith, h)

last-last : (n : ℕ) (xs ys : List Entry) → last n (last n xs ++ ys) ≡ last n (xs ++ ys)
unfolding last
last-last n xs ys =
    let j = length xs - n in
    let zs = xs ++ ys in
    let moved : drop j xs ++ ys ≡ drop j zs = sym (drop-append_le j xs ys (omega arith)) in
    ap (λ t. drop (length t - n) t) moved
    ∙ drop-drop (length (drop j zs) - n) j zs
    ∙ ap (λ k. drop k zs)
        (skipped (length xs) (length ys) _ _ (length-drop j zs) (length-append xs ys))
  where
    skipped : (x y d z : ℕ) → d ≡ z - (x - n) → z ≡ x + y → (x - n) + (d - n) ≡ z - n
    skipped x y d z e f = omega (arith, e, f)

run-last :
    (b : Buffer) (es : List Entry) (cs : List Call)
    → b.lines ≡ last b.max es
    → (run b cs).lines ≡ last b.max (added_since es cs)
unfolding run step add clear added_since
run-last b es [] h = h
run-last b es (adds now level message ∷ cs) h =
    run-last (add b now level message) (es ++ entry now level message ∷ []) cs (
      trim-last b.max _
      ∙ ap (λ t. last b.max (t ++ entry now level message ∷ [])) h
      ∙ last-last b.max es _)
run-last b es (clears ∷ cs) h = run-last (clear b) [] cs (last-nil b.max)

-- After any calls on a new buffer, it holds the last entries that were added since the last Clear: as
-- many as its capacity, which is 500 if none above zero was asked for.
pub new-last :
    (max : ℤ) (cs : List Call) → (run (new max) cs).lines ≡ last (capacity max) (added_since [] cs)
unfolding new capacity
new-last (negsuc n) cs = run-last (new (negsuc n)) [] cs (last-nil _)
new-last (pos zero) cs = run-last (new (pos zero)) [] cs (last-nil _)
new-last (pos (suc n)) cs = run-last (new (pos (suc n))) [] cs (last-nil _)

level_choice :
    (P : Text → Type 0) (a b c d : Bool)
    → P level_debug
    → P level_info
    → P level_warn
    → P level_error
    → P (
        if a
        then level_debug
        else if b
        then level_info
        else if c
        then level_warn
        else if d
        then level_error
        else level_info)
level_choice P true b c d p q r s = p
level_choice P false true c d p q r s = q
level_choice P false false true d p q r s = r
level_choice P false false false true p q r s = s
level_choice P false false false false p q r s = q

normalize_level_twice : (l : Text) → normalize_level (normalize_level l) ≡ normalize_level l
unfolding normalize_level
normalize_level_twice l = level_choice (λ t. normalize_level t ≡ t) _ _ _ _ refl refl refl refl

rank-normalize_level : (l : Text) → rank (normalize_level l) ≡ rank l
unfolding rank
rank-normalize_level l = ap rank_of (normalize_level_twice l)

at_least-append :
    (m : ℕ) (es fs : List Entry) → at_least m (es ++ fs) ≡ at_least m es ++ at_least m fs
unfolding at_least
at_least-append m [] fs = refl
at_least-append m (e ∷ es) fs = elim (Bool-cases (leb m (rank e.level))) [
  | inl keep ↦ rw keep (ap (λ t. e ∷ t) (at_least-append m es fs))
  | inr skip ↦ rw skip (at_least-append m es fs)
]

-- After Add on a buffer that holds no more than its capacity, LinesAtLeast lists what it listed of the
-- entries that stay, then the new entry if its level as it was given ranks at least as high.
pub add-lines_at_least :
    (b : Buffer) (now level message min_level : Text)
    → 0 < b.max
    → length b.lines ≤ b.max
    → lines_at_least (add b now level message) min_level
      ≡ at_least (rank min_level) (last (b.max - 1) b.lines)
        ++ (if leb (rank min_level) (rank level) then entry now level message ∷ [] else [])
unfolding lines_at_least add last at_least entry
add-lines_at_least b now level message min_level h w =
    ap (at_least (rank min_level))
      (trim-last b.max (b.lines ++ entry now level message ∷ []) ∙ kept)
    ∙ at_least-append (rank min_level) (last (b.max - 1) b.lines) (entry now level message ∷ [])
    ∙ ap (λ t. at_least (rank min_level) (last (b.max - 1) b.lines) ++ t)
        (single (rank-normalize_level level))
  where
    one : List Entry
    one = entry now level message ∷ []

    skipped : (l m n : ℕ) → 0 < m → n ≡ l + 1 → n - m ≡ l - (m - 1)
    skipped l m n p e = omega (arith, p, e)

    fits : (l m : ℕ) → 0 < m → l - (m - 1) ≤ l
    fits l m p = omega (arith, p)

    kept : last b.max (b.lines ++ one) ≡ last (b.max - 1) b.lines ++ one
    kept =
        ap (λ k. drop k (b.lines ++ one))
          (skipped (length b.lines) b.max _ h (length-append b.lines one))
        ∙ drop-append_le (length b.lines - (b.max - 1)) b.lines one (fits (length b.lines) b.max h)

    single :
        rank (normalize_level level) ≡ rank level
        → at_least (rank min_level) one ≡ (if leb (rank min_level) (rank level) then one else [])
    single e = ap (λ r. if leb (rank min_level) r then one else []) e
