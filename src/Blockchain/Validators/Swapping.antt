-- ===== src/Blockchain/Validators/Swapping.antt =====
-- beaconprocess.go: SwapValidator.
use cash_prototype.Base.{
  split_append, false, if◌then◌else◌, ℕ, ◌+◌, ◌-◌, ◌≤◌, ◌<◌, ◌≡◌, ◌∙◌, ap, refl, inl, inr, Option,
  none, some, List, [], ◌++◌, arith, Bool-cases, ltb, leb, ◌==◌, length, length-append, length-drop,
  length-take_of_le, take, drop, take-append-drop, Outcome, done, panic, pos, String, min, subst,
}
use mathlib.Core.List.{append_assoc}
use cash_prototype.Blockchain.Validators.{
  Swap, SwapError, exchange, fill, swap_some, swap_validator,
}

-- `k` validators enter. The queue law: the validators that were current and then those that were
-- pending are, in this order, those that left, those that are current, and those that are pending.
pub record Rotates (pending current : List String) (max_committee k : ℕ) (s : Swap) : Type 0 where
  pub queue : s.swapped ++ (s.current ++ s.pending) ≡ current ++ pending
  pub size : length s.current ≡ min max_committee (length current + k)
  pub left_over : length s.pending ≡ length pending - k

-- The call returns, without an error, lists that the predicate holds of.
abbrev pub Swaps : (Swap → Type 0) → Outcome (Swap × Option SwapError) → Type 0
Swaps P (done (s, none)) = P s
Swaps P (done (s, some e)) = ⊥
Swaps P panic = ⊥

exchange-Swaps :
    (pending current : List String) (m offset : ℕ)
    → offset ≤ length current
    → offset ≤ length pending
    → length current ≡ m
    → Swaps (Rotates pending current m offset) (exchange pending current m offset)
unfolding exchange
exchange-Swaps pending current m offset hc hp hm =
    let in_current : ltb (length current) offset ≡ false = ground arith in
    let in_pending : ltb (length pending) offset ≡ false = ground arith in
    let size : length (drop offset current ++ take offset pending) ≡ m = omega (
      arith,
      length-append (drop offset current) (take offset pending),
      length-drop offset current,
      length-take_of_le offset pending hp,
    ) in
    let fits : ltb m (length (drop offset current ++ take offset pending)) ≡ false = ground arith in
    rw (in_current, in_pending, fits)
      (record {
        queue =
            ap (◌++◌ (take offset current)) (
              append_assoc (drop offset current) (take offset pending) (drop offset pending)
              ∙ ap (◌++◌ (drop offset current)) (take-append-drop offset pending))
            ∙ split_append offset current pending;
        size = omega (arith, size);
        left_over = length-drop offset pending;
      })

Swaps-imp :
    {P Q : Swap → Type 0} (r : Outcome (Swap × Option SwapError))
    → ((s : Swap) → P s → Q s)
    → Swaps P r
    → Swaps Q r
Swaps-imp (done (s, none)) f h = f s h
Swaps-imp (done (s, some e)) f h = h
Swaps-imp panic f h = h

-- There is room for all that enter.
all_enter :
    (pending current : List String) (m offset : ℕ)
    → offset + length current ≤ m
    → offset ≤ length pending
    → Rotates pending current m offset (record {
      pending = drop offset pending;
      current = current ++ take offset pending;
      swapped = [];
      incoming = take offset pending;
    })
all_enter pending current m offset hm hp = record {
  queue =
      append_assoc current (take offset pending) (drop offset pending)
      ∙ ap (◌++◌ current) (take-append-drop offset pending);
  size =
      omega
        (arith, length-append current (take offset pending), length-take_of_le offset pending hp);
  left_over = length-drop offset pending;
}

-- First `diff` validators fill the committee, then the rest of them take places in it.
filled-Rotates :
    (pending current : List String) (m diff rest : ℕ) (s : Swap)
    → length current + diff ≡ m
    → diff + rest ≤ length pending
    → Rotates (drop diff pending) (current ++ take diff pending) m rest s
    → Rotates pending current m (diff + rest) s
filled-Rotates pending current m diff rest s hm hp r =
    let entered = length-take_of_le diff pending (omega arith) in
    let grown = length-append current (take diff pending) in
    record {
      queue =
          r.queue
          ∙ (append_assoc current (take diff pending) (drop diff pending)
              ∙ ap (◌++◌ current) (take-append-drop diff pending));
      size = omega (arith, r.size, entered, grown);
      left_over = omega (arith, r.left_over, length-drop diff pending);
    }

exchange_rest-Swaps :
    (pending current : List String) (m diff rest : ℕ)
    → length current + diff ≡ m
    → diff + rest ≤ length pending
    → rest ≤ m
    → Swaps
        (Rotates pending current m (diff + rest))
        (exchange (drop diff pending) (current ++ take diff pending) m rest)
exchange_rest-Swaps pending current m diff rest hm hp hr =
    let entered = length-take_of_le diff pending (omega arith) in
    let grown = length-append current (take diff pending) in
    Swaps-imp (exchange (drop diff pending) (current ++ take diff pending) m rest)
      (λ s r. filled-Rotates pending current m diff rest s hm hp r)
      (exchange-Swaps (drop diff pending) (current ++ take diff pending) m rest
        (omega (arith, entered, grown)) (omega (arith, length-drop diff pending))
        (omega (arith, entered, grown)))

pub fill-Swaps :
    (pending current : List String) (m offset : ℕ)
    → offset ≤ m
    → offset ≤ length pending
    → length current ≤ m
    → Swaps (Rotates pending current m offset) (fill pending current m offset)
unfolding fill
fill-Swaps pending current m offset hm hp hc = elim (Bool-cases (ltb (length current) m)) [
  | inr full ↦ rw full (exchange-Swaps pending current m offset (ground arith) hp (ground arith))
  | inl room ↦ elim (Bool-cases (leb offset (m - length current))) [
    | inl all ↦ rw (room, all) (all_enter pending current m offset (ground arith) hp)
    | inr some' ↦
        rw (room, some')
          (let diff = m - length current in
            let whole : diff + (offset - diff) ≡ offset = ground arith in
            subst
              (λ k.
                Swaps (Rotates pending current m k)
                  (exchange (drop diff pending) (current ++ take diff pending) m (offset - diff)))
              whole
              (exchange_rest-Swaps pending current m diff (offset - diff) (ground arith)
                (ground arith) (ground arith)))
  ]
]

-- Beyond the refusals the call is `fill`, with an offset cut down to the pending validators.
swap_some-eq-fill :
    (pending current : List String) (m offset : ℕ)
    → 0 < min offset (length pending)
    → min offset (length pending) ≤ m
    → swap_some pending current m offset ≡ fill pending current m (min offset (length pending))
unfolding swap_some
swap_some-eq-fill pending current m offset hk hm =
    let some_offset : (offset == 0) ≡ false = ground arith in
    let cut : (if ltb (length pending) offset then length pending else offset)
        ≡ min offset (length pending) =
      ground arith in
    let some_pending : (min offset (length pending) == 0) ≡ false = ground arith in
    let fits : ltb m (min offset (length pending)) ≡ false = ground arith in
    rw (some_offset, cut, some_pending, fits) refl

-- With an offset other than 0, some validator pending, and a committee that is not over its limit
-- and whose limit the entering validators do not exceed, SwapValidator returns without an error,
-- and min(offset, number of pending validators) validators enter in queue order: those that left,
-- the new committee and the remaining pending ones are, in this order, the old committee and the
-- old pending ones. The committee grows up to its limit, and the pending list gets shorter by those
-- that entered.
pub swap_validator-Swaps :
    (pending current : List String) (m offset : ℕ)
    → 0 < min offset (length pending)
    → min offset (length pending) ≤ m
    → length current ≤ m
    → Swaps
        (Rotates pending current m (min offset (length pending)))
        (swap_validator pending current (pos m) (pos offset))
unfolding swap_validator
swap_validator-Swaps pending current m offset hk hm hc =
    rw (swap_some-eq-fill pending current m offset hk hm)
      (fill-Swaps pending current m (min offset (length pending)) hm (omega arith) hc)

exchange-incoming :
    (pending current : List String) (m offset : ℕ)
    → offset ≤ length current
    → offset ≤ length pending
    → length current ≡ m
    → Swaps (λ s. s.incoming ++ s.pending ≡ pending) (exchange pending current m offset)
unfolding exchange
exchange-incoming pending current m offset hc hp hm =
    let in_current : ltb (length current) offset ≡ false = ground arith in
    let in_pending : ltb (length pending) offset ≡ false = ground arith in
    let size : length (drop offset current ++ take offset pending) ≡ m = omega (
      arith,
      length-append (drop offset current) (take offset pending),
      length-drop offset current,
      length-take_of_le offset pending hp,
    ) in
    let fits : ltb m (length (drop offset current ++ take offset pending)) ≡ false = ground arith in
    rw (in_current, in_pending, fits) (take-append-drop offset pending)

-- The validators that fill a committee with `m` places before the others replace members of it.
abbrev pub unreported : List String → ℕ → ℕ → ℕ
unreported current m offset = if ltb (m - length current) offset then m - length current else 0

fill-incoming :
    (pending current : List String) (m offset : ℕ)
    → offset ≤ m
    → offset ≤ length pending
    → length current ≤ m
    → Swaps
        (λ s. s.incoming ++ s.pending ≡ drop (unreported current m offset) pending)
        (fill pending current m offset)
unfolding fill
fill-incoming pending current m offset hm hp hc = elim (Bool-cases (ltb (length current) m)) [
  | inr full ↦
      let none_fill : unreported current m offset ≡ 0 = ground arith in
      rw (full, none_fill)
        (exchange-incoming pending current m offset (ground arith) hp (ground arith))
  | inl room ↦ elim (Bool-cases (leb offset (m - length current))) [
    | inl all ↦
        let none_fill : unreported current m offset ≡ 0 = ground arith in
        rw (room, all, none_fill) (take-append-drop offset pending)
    | inr some' ↦
        let diff = m - length current in
        let some_fill : unreported current m offset ≡ diff = ground arith in
        let entered = length-take_of_le diff pending (ground arith) in
        let grown = length-append current (take diff pending) in
        rw (room, some', some_fill)
          (exchange-incoming (drop diff pending) (current ++ take diff pending) m (offset - diff)
            (ground arith) (omega (arith, length-drop diff pending)) (ground arith))
  ]
]

-- With an offset other than 0, some validator pending, and a committee that is not over its limit
-- and whose limit the entering validators do not exceed, the incoming validators that SwapValidator
-- reports, followed by the remaining pending ones, are the old pending ones without the first
-- `unreported` of them: where some enter free places of the committee and others replace members,
-- the former are not reported.
swap_validator-incoming :
    (pending current : List String) (m offset : ℕ)
    → 0 < min offset (length pending)
    → min offset (length pending) ≤ m
    → length current ≤ m
    → Swaps
        (λ s.
          s.incoming ++ s.pending
          ≡ drop (unreported current m (min offset (length pending))) pending)
        (swap_validator pending current (pos m) (pos offset))
unfolding swap_validator
swap_validator-incoming pending current m offset hk hm hc =
    rw (swap_some-eq-fill pending current m offset hk hm)
      (fill-incoming pending current m (min offset (length pending)) hm (omega arith) hc)
