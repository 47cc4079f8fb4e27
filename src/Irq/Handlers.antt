-- ===== src/Irq/Handlers.antt =====
-- kernel/mem_natives.c: the references that the table of interrupt handlers holds.
use beeros.Prelude.{
  ℕ, zero, suc, ◌+◌, ◌<◌, ◌≡◌, refl, sym, ◌∙◌, Bool, true, false, Option, none, some, List, [], ◌∷◌,
  ◌++◌, ltb, ltb→lt, if◌then◌else◌, arith, Bool-cases, inl, inr,
}
use mathlib.Core.Path.{subst}
use mathlib.Core.Bool.{false≢true}
use mathlib.Core.Option.{none-ne-some, some-injective}
use beeros.Prelude.Slice.{update}
use beeros.Prelude.Int.{ℤ, pos, negsuc, to_u64, int_of}
use beeros.Beerlang.{Value, nil, boolean, fixnum, keyword, bytebuffer, other}
use beeros.Irq.{
  Irqs, max_irqs, irq_index, counted, native_mem_irq_register, native_mem_irq_handler,
  mem_register_natives,
}
use beeros.Irq.Tally.{one_if, same_bool, tally, slots, handed, tally-append, slots-update}

-- A call of one of the two natives on the table, with its arguments.
pub data Use : Type 0 where
  register : List Value → Use
  look_up : List Value → Use

irq_index-lt : (v : Value) (n : ℕ) → irq_index v ≡ some n → n < max_irqs
unfolding irq_index
irq_index-lt (fixnum i) n e = go (int_of (to_u64 i)) e
  where
    go :
        (z : ℤ)
        → (elim z as (λ x. Option ℕ) [
          | pos k ↦ if ltb k max_irqs then some k else none
          | negsuc k ↦ none
        ])
          ≡ some n
        → n < max_irqs
    go (negsuc k) h = absurd (none-ne-some n h)
    go (pos k) h = elim (Bool-cases (ltb k max_irqs)) [
      | inl small ↦
          let same : k ≡ n = some-injective k n (rw small at h) in
          omega (arith, same, ltb→lt k max_irqs small)
      | inr large ↦ absurd (none-ne-some n (rw large at h))
    ]
irq_index-lt nil n e = absurd (none-ne-some n e)
irq_index-lt (boolean b) n e = absurd (none-ne-some n e)
irq_index-lt (keyword k) n e = absurd (none-ne-some n e)
irq_index-lt (bytebuffer a c) n e = absurd (none-ne-some n e)
irq_index-lt (other k) n e = absurd (none-ne-some n e)

module _ (is_pointer : Value → Bool) where
  -- The handlers that the calls of irq-handler have answered, and the state that is left.
  pub uses : List Use → Irqs → List Value × Irqs
  uses [] s = ([], s)
  uses (register args ∷ us) s = uses us (native_mem_irq_register is_pointer args s).1
  uses (look_up args ∷ us) s =
      let (v, s') = native_mem_irq_handler is_pointer args s in
      let (vs, s'') = uses us s' in (v ∷ vs, s'')

  -- What is retained is in a slot, among the `given` that were handed out, or released again.
  Balanced : (Value → Bool) → ℕ → Irqs → Type 0
  Balanced p given s =
      tally true p s.calls ≡ tally false p s.calls + slots p s.handlers max_irqs + given

  module _ (p : Value → Bool) (picks : (v : Value) → p v ≡ true → is_pointer v ≡ true)
      (nil_plain : is_pointer nil ≡ false) where
    tally-counted :
        (kind k : Bool) (v : Value)
        → tally kind p (counted is_pointer k v) ≡ (if same_bool kind k then one_if (p v) else 0)
    unfolding tally counted
    tally-counted kind k v = elim (Bool-cases (is_pointer v)) [
      | inl pointer ↦ rw pointer (single (same_bool kind k))
      | inr plain ↦ elim (Bool-cases (p v)) [
        | inl picked ↦ absurd (false≢true (sym plain ∙ picks v picked))
        | inr unlike ↦ rw (plain, unlike) (nothing (same_bool kind k))
      ]
    ]
      where
        single : (b : Bool) → (if b then one_if (p v) + 0 else 0) ≡ (if b then one_if (p v) else 0)
        single true = omega arith
        single false = refl

        nothing : (b : Bool) → Path ℕ 0 (if b then 0 else 0)
        nothing true = refl
        nothing false = refl

    -- The stores of irq-register! into slot `n`.
    stored :
        (n : ℕ) (h : Value) (given : ℕ) (s : Irqs)
        → n < max_irqs
        → Balanced p given s
        → Balanced p given (record s {
          handlers = update s.handlers n h;
          calls = s.calls ++ counted is_pointer false (s.handlers n) ++ counted is_pointer true h;
        })
    unfolding Balanced
    stored n h given s lt ok =
        let out : List (Bool × Value) = counted is_pointer false (s.handlers n) in
        let into : List (Bool × Value) = counted is_pointer true h in
        let retained_out : tally true p out ≡ 0 = tally-counted true false (s.handlers n) in
        let retained_into : tally true p into ≡ one_if (p h) = tally-counted true true h in
        let released_out : tally false p out ≡ one_if (p (s.handlers n)) =
          tally-counted false false (s.handlers n) in
        let released_into : tally false p into ≡ 0 = tally-counted false true h in
        omega (
          arith,
          ok,
          tally-append true p (s.calls ++ out) into,
          tally-append false p (s.calls ++ out) into,
          tally-append true p s.calls out,
          tally-append false p s.calls out,
          retained_out,
          retained_into,
          released_out,
          released_into,
          slots-update p s.handlers n max_irqs h lt,
        )

    register-Balanced :
        (args : List Value) (given : ℕ) (s : Irqs)
        → Balanced p given s
        → Balanced p given (native_mem_irq_register is_pointer args s).1
    unfolding native_mem_irq_register
    register-Balanced [] given s ok = ok
    register-Balanced (v ∷ []) given s ok = ok
    register-Balanced (v ∷ h ∷ rest) given s ok = go (irq_index v) refl
      where
        go :
            (o : Option ℕ)
            → irq_index v ≡ o
            → Balanced p given
                (elim o as (λ x. Value × Irqs) [
                  | none ↦ (nil, s)
                  | some n ↦ (
                    nil,
                    record s {
                      handlers = update s.handlers n h;
                      calls =
                          s.calls
                          ++ counted is_pointer false (s.handlers n)
                          ++ counted is_pointer true h;
                    },
                  )
                ]).1
        go none e = ok
        go (some n) e = stored n h given s (irq_index-lt v n e) ok

    nothing_given :
        (given : ℕ) (s : Irqs) → Balanced p given s → Balanced p (given + one_if (p nil)) s
    unfolding Balanced
    nothing_given given s ok = elim (Bool-cases (p nil)) [
      | inl picked ↦ absurd (false≢true (sym nil_plain ∙ picks nil picked))
      | inr unlike ↦ rw unlike (omega (arith, ok))
    ]

    -- The answer of irq-handler from slot `n`.
    answered :
        (n given : ℕ) (s : Irqs)
        → Balanced p given s
        → Balanced p
            (given + one_if (p (s.handlers n)))
            (record s { calls = s.calls ++ counted is_pointer true (s.handlers n) })
    unfolding Balanced
    answered n given s ok =
        let new : List (Bool × Value) = counted is_pointer true (s.handlers n) in
        let retained : tally true p new ≡ one_if (p (s.handlers n)) =
          tally-counted true true (s.handlers n) in
        let released : tally false p new ≡ 0 = tally-counted false true (s.handlers n) in
        omega (
          arith,
          ok,
          tally-append true p s.calls new,
          tally-append false p s.calls new,
          retained,
          released,
        )

    look_up-Balanced :
        (args : List Value) (given : ℕ) (s : Irqs)
        → Balanced p given s
        → let (v, s') = native_mem_irq_handler is_pointer args s in
          Balanced p (given + one_if (p v)) s'
    unfolding native_mem_irq_handler
    look_up-Balanced [] given s ok = nothing_given given s ok
    look_up-Balanced (v ∷ rest) given s ok = go (irq_index v)
      where
        go :
            (o : Option ℕ)
            → let r = elim o as (λ x. Value × Irqs) [
              | none ↦ (nil, s)
              | some n ↦ (
                s.handlers n,
                record s { calls = s.calls ++ counted is_pointer true (s.handlers n) },
              )
            ] in
              Balanced p (given + one_if (p r.0)) r.1
        go none = nothing_given given s ok
        go (some n) = answered n given s ok

    uses-given :
        (us : List Use) (given : ℕ) (s : Irqs)
        → Balanced p given s
        → Balanced p (given + handed p (uses us s).0) (uses us s).1
    unfolding uses handed
    uses-given [] given s ok =
        let e : given ≡ given + 0 = omega arith in subst (λ k. Balanced p k s) e ok
    uses-given (register args ∷ us) given s ok =
        uses-given us given _ (register-Balanced args given s ok)
    uses-given (look_up args ∷ us) given s ok =
        let (v, s') = native_mem_irq_handler is_pointer args s in
        let e : given + one_if (p v) + handed p (uses us s').0
            ≡ given + (one_if (p v) + handed p (uses us s').0) =
          omega arith in
        subst (λ k. Balanced p k (uses us s').1) e
          (uses-given us (given + one_if (p v)) s' (look_up-Balanced args given s ok))

    slots-nil : (n : ℕ) → slots p (λ k. nil) n ≡ 0
    unfolding slots
    slots-nil zero = refl
    slots-nil (suc n) = elim (Bool-cases (p nil)) [
      | inl picked ↦ absurd (false≢true (sym nil_plain ∙ picks nil picked))
      | inr unlike ↦ rw unlike (omega (arith, slots-nil n))
    ]

    -- Once mem_register_natives has cleared the table, with nothing retained: whatever the calls of
    -- irq-register! and irq-handler, for any choice of counted values, the calls of object_retain on
    -- them are as many as those of object_release, the slots of the table that hold one, and the
    -- answers of irq-handler that are one.
    pub uses-Balanced :
        (us : List Use) (s : Irqs)
        → s.calls ≡ []
        → let (answers, s') = uses us (mem_register_natives s) in
          tally true p s'.calls
          ≡ tally false p s'.calls + slots p s'.handlers max_irqs + handed p answers
    unfolding mem_register_natives Balanced
    uses-Balanced us s fresh =
        let s' : Irqs = mem_register_natives s in
        let start : tally true p s'.calls
            ≡ tally false p s'.calls + slots p s'.handlers max_irqs + 0 =
          rw fresh (unfold tally in omega (arith, slots-nil max_irqs)) in
        omega (arith, uses-given us 0 s' start)
