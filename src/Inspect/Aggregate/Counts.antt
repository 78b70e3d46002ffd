-- ===== src/Inspect/Aggregate/Counts.antt =====
-- Each packet is counted in the conversation of its id.
use quarantine_lab.Prelude.{
  ℕ, suc, ◌+◌, ◌≤◌, ◌≡◌, refl, sym, ap, ◌∙◌, map, Bool, true, false, ◌&&◌, ◌||◌, not, List, [], ◌∷◌,
  ◌++◌, if◌then◌else◌, length, take-length, arith, ltb, Bool-cases, inl, inr,
}
use quarantine_lab.Prelude.Text.{Text, codes, text_eq, text_eq→eq, text_eq_sym}
use quarantine_lab.Inspect.Flow.{Flow}
use quarantine_lab.Inspect.Aggregate.{
  Packet, FlowAcc, flow_id, has_text, add_info, add_names, count_packet, add_packet, new_acc,
  add_to_flows, aggregate_loop, finish_flow, aggregate_flows, max_flows,
}

-- The packets of a conversation with an id, 0 if there is none.
unfoldable pub packets_of : Text → List Flow → ℕ
packets_of k [] = 0
packets_of k (f ∷ fs) = if text_eq k f.id then f.packets else packets_of k fs

unfoldable pub occurrences : Text → List Packet → ℕ
unfolding flow_id
occurrences k [] = 0
occurrences k (p ∷ ps) = (if text_eq k (flow_id p) then 1 else 0) + occurrences k ps

flow_of : FlowAcc → Flow
flow_of a = a.flow

abbrev SameCount : Flow → Flow → Type 0
SameCount f g = (f.id ≡ g.id) × (f.packets ≡ g.packets)

add_info-SameCount : (info : Text) (a : FlowAcc) → SameCount (add_info info a).flow a.flow
unfolding add_info
add_info-SameCount info a =
    if_choice (not (text_eq info []) && not (has_text info a.seen) && ltb (length a.flow.info) 400)
      _ a (refl, refl)
  where
    if_choice :
        (c : Bool) (x y : FlowAcc)
        → SameCount x.flow y.flow
        → SameCount (if c then x else y).flow y.flow
    if_choice true x y h = h
    if_choice false x y h = (refl, refl)

add_names-flow : (ns : List Text) (a : FlowAcc) → (add_names ns a).flow ≡ a.flow
unfolding add_names
add_names-flow [] a = refl
add_names-flow (n ∷ ns) a =
    add_names-flow ns _ ∙ if_choice (text_eq n [] || has_text (codes "n:" ++ n) a.seen) a _ refl
  where
    if_choice : (c : Bool) (x y : FlowAcc) → y.flow ≡ x.flow → (if c then x else y).flow ≡ x.flow
    if_choice true x y h = refl
    if_choice false x y h = h

add_packet-id : (p : Packet) (a : FlowAcc) → (add_packet p a).flow.id ≡ a.flow.id
unfolding add_packet count_packet
add_packet-id p a = ap (λ f. f.id) (add_names-flow p.names _) ∙ (add_info-SameCount p.info _).0

add_packet-packets : (p : Packet) (a : FlowAcc) → (add_packet p a).flow.packets ≡ suc a.flow.packets
unfolding add_packet count_packet
add_packet-packets p a =
    ap (λ f. f.packets) (add_names-flow p.names _) ∙ (add_info-SameCount p.info _).1

abbrev one_if : Bool → ℕ
one_if b = if b then 1 else 0

-- packets_of, on the entries of byID
unfoldable counted : Text → List FlowAcc → ℕ
counted k [] = 0
counted k (a ∷ accs) = if text_eq k a.flow.id then a.flow.packets else counted k accs

counted-add_packet :
    (k : Text) (p : Packet) (a : FlowAcc) (accs : List FlowAcc)
    → counted k (add_packet p a ∷ accs)
      ≡ (if text_eq k a.flow.id then suc a.flow.packets else counted k accs)
unfolding counted
counted-add_packet k p a accs i =
    if text_eq k (add_packet-id p a i) then add_packet-packets p a i else counted k accs

-- A number that a test chooses grows by one where the test holds.
grown : (b : Bool) (n m : ℕ) → (if b then suc n else m) ≡ one_if b + (if b then n else m)
grown b n m = ground arith

from_zero : (n : ℕ) → n ≡ 0 + n
from_zero n = omega arith

module _ (format : ℕ → Text) (k : Text) where
  counted-add_to_flows :
      (p : Packet) (accs : List FlowAcc)
      → counted k (add_to_flows format p accs) ≡ one_if (text_eq k (flow_id p)) + counted k accs
  unfolding add_to_flows counted new_acc
  counted-add_to_flows p [] =
      counted-add_packet k p (new_acc format p) []
      ∙ grown (text_eq k (flow_id p)) 0 0
      ∙ none_counted (text_eq k (flow_id p))
    where
      none_counted : (b : Bool) → one_if b + (if b then 0 else 0) ≡ one_if b + 0
      none_counted b = ground arith
  counted-add_to_flows p (a ∷ accs) = elim (Bool-cases (text_eq (flow_id p) a.flow.id)) [
    | inl same ↦ rw same (
        counted-add_packet k p a accs
        ∙ grown (text_eq k a.flow.id) a.flow.packets (counted k accs)
        ∙ ap (λ t. one_if (text_eq k t) + counted k (a ∷ accs))
            (sym (text_eq→eq (flow_id p) a.flow.id same)))
    | inr other ↦ elim (Bool-cases (text_eq k a.flow.id)) [
      | inl here ↦ rw (other, counted, here, apart here other) (from_zero a.flow.packets)
      | inr there ↦ rw (other, counted, there) (counted-add_to_flows p accs)
    ]
  ]
    where
      apart :
          text_eq k a.flow.id ≡ true
          → text_eq (flow_id p) a.flow.id ≡ false
          → text_eq k (flow_id p) ≡ false
      apart here other =
          ap (λ t. text_eq t (flow_id p)) (text_eq→eq k a.flow.id here)
          ∙ text_eq_sym a.flow.id (flow_id p)
          ∙ other

  counted-aggregate_loop :
      (ps : List Packet) (accs : List FlowAcc)
      → counted k (aggregate_loop format accs ps) ≡ occurrences k ps + counted k accs
  unfolding aggregate_loop occurrences
  counted-aggregate_loop [] accs = from_zero (counted k accs)
  counted-aggregate_loop (p ∷ ps) accs =
      counted-aggregate_loop ps (add_to_flows format p accs)
      ∙ ap (λ n. occurrences k ps + n) (counted-add_to_flows p accs)
      ∙ turn (occurrences k ps) (one_if (text_eq k (flow_id p))) (counted k accs)
    where
      turn : (a b c : ℕ) → a + (b + c) ≡ (b + a) + c
      turn a b c = omega arith

  packets_of-finish_flow :
      (accs : List FlowAcc) → packets_of k (map (finish_flow format) accs) ≡ counted k accs
  unfolding packets_of counted finish_flow
  packets_of-finish_flow [] = refl
  packets_of-finish_flow (a ∷ accs) =
      ap (λ n. if text_eq k a.flow.id then a.flow.packets else n) (packets_of-finish_flow accs)

  -- Where a capture has no more than 5000 conversations, aggregateFlows counts in the conversation of
  -- an id exactly the packets with that id, and has none for an id that no packet has.
  pub packets_of-aggregate_flows :
      (ps : List Packet)
      → length (aggregate_loop format [] ps) ≤ max_flows
      → packets_of k (aggregate_flows format ps) ≡ occurrences k ps
  unfolding aggregate_flows counted
  packets_of-aggregate_flows ps h =
      ap (λ accs. packets_of k (map (finish_flow format) accs))
        (take-length (aggregate_loop format [] ps) max_flows h)
      ∙ packets_of-finish_flow (aggregate_loop format [] ps)
      ∙ counted-aggregate_loop ps []
      ∙ plus_none (occurrences k ps)
    where
      plus_none : (n : ℕ) → n + counted k [] ≡ n
      plus_none n = omega arith
