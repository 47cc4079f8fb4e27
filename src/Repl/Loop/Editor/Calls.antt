-- ===== src/Repl/Loop/Editor/Calls.antt =====
-- kernel/repl_uart.c: what lineedit_compile makes is freed, but for the code that it keeps.
use beeros.Prelude.{
  ℕ, ◌+◌, ◌≡◌, refl, ap, ◌∙◌, Bool, true, false, not, Option, none, some, List, [], ◌∷◌, ◌++◌,
  if◌then◌else◌, arith, Bool-cases, inl, inr,
}
use beeros.Beerlang.{Value}
use beeros.Repl.Loop.{Edit, off, uncompilable}
use beeros.Repl.Loop.Editor.{
  Attempt, no_reader, unreadable, uncompiled, compiled, Call, reader_new, reader_free, compiler_new,
  compiler_free, compile, compiled_code_free, object_make_immortal, Ran, Editor, lineedit_enabled,
  immortals, attempt, lineedit_compile, lineedit_disable, ran, disables, edit, reads,
}
use beeros.Repl.Loop.Editor.GivesUp.{GivesUp, reads-GivesUp}

data Resource : Type 0 where
  readers : Resource
  compilers : Resource
  codes : Resource

-- How many of the calls are one of a kind.
count : (Call → Bool) → List Call → ℕ
count kind [] = 0
count kind (c ∷ calls) = let rest = count kind calls in if kind c then 1 + rest else rest

count-append :
    (kind : Call → Bool) (a b : List Call) → count kind (a ++ b) ≡ count kind a + count kind b
unfolding count
count-append kind [] b = omega arith
count-append kind (c ∷ a) b = elim (Bool-cases (kind c)) [
  | inl this ↦ rw this (omega (arith, count-append kind a b))
  | inr that ↦ rw that (count-append kind a b)
]

makes : Resource → Call → Bool
makes readers reader_new = true
makes compilers compiler_new = true
makes codes compile = true
makes _ _ = false

frees : Resource → Call → Bool
frees readers reader_free = true
frees compilers compiler_free = true
frees codes compiled_code_free = true
frees _ _ = false

kept : Resource → Option (List Value) → ℕ
kept codes (some consts) = 1
kept _ _ = 0

-- What has been made is freed, but for the code that is kept.
pub Balanced : Editor → Type 0
Balanced e = (k : Resource) → count (makes k) e.calls ≡ count (frees k) e.calls + kept k e.code

kept-none : (k : Resource) → kept k none ≡ 0
unfolding kept
kept-none readers = refl
kept-none compilers = refl
kept-none codes = refl

joined :
    (k : Resource) (calls new : List Call) (o o' : Option (List Value))
    → count (makes k) calls ≡ count (frees k) calls + kept k o
    → o ≡ none
    → count (makes k) new ≡ count (frees k) new + kept k o'
    → count (makes k) (calls ++ new) ≡ count (frees k) (calls ++ new) + kept k o'
joined k calls new o o' before empty after =
    let nothing : kept k o ≡ 0 = ap (kept k) empty ∙ kept-none k in
    omega (
      arith,
      before,
      after,
      nothing,
      count-append (makes k) calls new,
      count-append (frees k) calls new,
    )

ok_at :
    (e : Editor)
    → Balanced e
    → (k : Resource) → count (makes k) e.calls ≡ count (frees k) e.calls + kept k e.code
unfolding Balanced
ok_at e ok k = ok k

disable-Balanced : (e : Editor) → Balanced e → Balanced (lineedit_disable e)
unfolding Balanced lineedit_disable
disable-Balanced e ok = ok

module _ (is_pointer : Value → Bool) where
  immortals-count :
      (kind : Call → Bool)
      → ((v : Value) → kind (object_make_immortal v) ≡ false)
      → (vs : List Value) → count kind (immortals is_pointer vs) ≡ 0
  unfolding immortals count
  immortals-count kind none_counted [] = refl
  immortals-count kind none_counted (v ∷ vs) = elim (Bool-cases (is_pointer v)) [
    | inl object ↦ rw (object, none_counted v) (immortals-count kind none_counted vs)
    | inr plain ↦ rw plain (immortals-count kind none_counted vs)
  ]

  made : (k : Resource) (vs : List Value) → count (makes k) (immortals is_pointer vs) ≡ 0
  unfolding makes
  made readers vs = immortals-count (makes readers) (λ v. refl) vs
  made compilers vs = immortals-count (makes compilers) (λ v. refl) vs
  made codes vs = immortals-count (makes codes) (λ v. refl) vs

  freed : (k : Resource) (vs : List Value) → count (frees k) (immortals is_pointer vs) ≡ 0
  unfolding frees
  freed readers vs = immortals-count (frees readers) (λ v. refl) vs
  freed compilers vs = immortals-count (frees compilers) (λ v. refl) vs
  freed codes vs = immortals-count (frees codes) (λ v. refl) vs

  attempt-Balanced :
      (a : Attempt) (k : Resource)
      → count (makes k) (attempt is_pointer a).1
        ≡ count (frees k) (attempt is_pointer a).1 + kept k (attempt is_pointer a).0
  unfolding attempt count makes frees kept
  attempt-Balanced no_reader readers = refl
  attempt-Balanced no_reader compilers = refl
  attempt-Balanced no_reader codes = refl
  attempt-Balanced unreadable readers = refl
  attempt-Balanced unreadable compilers = refl
  attempt-Balanced unreadable codes = refl
  attempt-Balanced (uncompiled true) readers = refl
  attempt-Balanced (uncompiled true) compilers = refl
  attempt-Balanced (uncompiled true) codes = refl
  attempt-Balanced (uncompiled false) readers = refl
  attempt-Balanced (uncompiled false) compilers = refl
  attempt-Balanced (uncompiled false) codes = refl
  attempt-Balanced (compiled true consts) readers =
      omega (arith, made readers consts, freed readers consts)
  attempt-Balanced (compiled true consts) compilers =
      omega (arith, made compilers consts, freed compilers consts)
  attempt-Balanced (compiled true consts) codes =
      omega (arith, made codes consts, freed codes consts)
  attempt-Balanced (compiled false consts) readers =
      omega (arith, made readers consts, freed readers consts)
  attempt-Balanced (compiled false consts) compilers =
      omega (arith, made compilers consts, freed compilers consts)
  attempt-Balanced (compiled false consts) codes =
      omega (arith, made codes consts, freed codes consts)

  lineedit_compile-Balanced :
      (a : Attempt) (e : Editor) → Balanced e → Balanced (lineedit_compile is_pointer a e).1
  unfolding lineedit_compile
  lineedit_compile-Balanced a e ok = go e.code refl
    where
      go :
          (o : Option (List Value))
          → e.code ≡ o
          → Balanced
              (elim o as (λ x. Bool × Editor) [
                | some consts ↦ (true, e)
                | none ↦
                    let (code, calls) = attempt is_pointer a in
                    (
                      elim code [ none ↦ false | some consts ↦ true ],
                      record e { code = code; calls = e.calls ++ calls },
                    )
              ]).1
      go (some consts) same = ok
      go none same =
          unfold Balanced in
          λ k.
            joined k e.calls (attempt is_pointer a).1 e.code (attempt is_pointer a).0 (ok_at e ok k)
              same (attempt-Balanced a k)

  edit-Balanced :
      (a : Attempt) (r : Ran) (e : Editor) → Balanced e → Balanced (edit is_pointer a r e).1
  unfolding edit
  edit-Balanced a r e ok =
      go (lineedit_enabled e) (lineedit_compile is_pointer a e).0
        (lineedit_compile is_pointer a e).1 (ran r) (lineedit_compile-Balanced a e ok)
    where
      go :
          (on done : Bool) (e' : Editor) (how : Edit)
          → Balanced e'
          → let x : Edit × Editor =
              if not on
              then (off, e)
              else if not done
              then (uncompilable, lineedit_disable e')
              else (how, if disables how then lineedit_disable e' else e') in
            Balanced x.1
      go false done e' how ok' = ok
      go true false e' how ok' = disable-Balanced e' ok'
      go true true e' how ok' = elim (Bool-cases (disables how)) [
        | inl given_up ↦ rw given_up (disable-Balanced e' ok')
        | inr going ↦ rw going ok'
      ]

  reads-Balanced :
      (max : ℕ) (rest : List (Attempt × Ran)) (e : Editor)
      → Balanced e
      → Balanced (reads is_pointer max rest e).1
  unfolding reads
  reads-Balanced max [] e ok = ok
  reads-Balanced max ((a, r) ∷ rest) e ok =
      reads-Balanced max rest (edit is_pointer a r e).1 (edit-Balanced a r e ok)

  -- From an editor that has compiled nothing, whatever the calls of lineedit_read come to, with
  -- nobody setting enabled? in between: once the editor is disabled, that line and every later one
  -- is left to uart_readline, and nothing more is printed. Every reader and compiler that was made
  -- is freed, and so is all compiled code but the one that is kept.
  pub reads-Sound :
      (max : ℕ) (rest : List (Attempt × Ran)) (e : Editor)
      → e.code ≡ none
      → e.calls ≡ []
      → let (answers, e') = reads is_pointer max rest e in GivesUp answers × Balanced e'
  reads-Sound max rest e no_code no_calls = (
    reads-GivesUp is_pointer max rest e,
    reads-Balanced max rest e (
        unfold Balanced in
        λ k. rw (no_code, no_calls) (unfold count in omega (arith, kept-none k))),
  )
