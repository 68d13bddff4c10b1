-- ===== src/Grammar/Tree/Follow.antt =====
-- What a continuation of src/grammar/interpreted/TreeMatcher.cpp stands for: the captures that are
-- to come when it succeeds at a position, and the outcome of a call that goes on with it.
use ft_irc.Prelude.{
  Bytes, text, ℕ, suc, ◌+◌, ◌-◌, ◌≤◌, ◌≡◌, refl, Bool, true, false, ◌&&◌, Option, none, some, List,
  [], ◌∷◌, ◌++◌, arith, ltb, ltb→lt, &&_true, length,
}
use ft_irc.Grammar.Rules.{Grammar, node, child}
use ft_irc.Grammar.Derivation.{AtMost, Capture, substr, Derives, Each, Times}
use ft_irc.Grammar.Walk.{
  Continuation, or_else, unless_exhausted, push_capture, Found, Walk, run_node, sequence_at,
  repeat_at, close_capture,
}

-- Captures pushed one after the other.
abbrev pub note_all : List Capture → Found → Found
note_all [] f = f
note_all ((slot, text) ∷ cs) f = note_all cs (push_capture slot text f)

pub note_all-append :
    (cs ds : List Capture) (f : Found) → note_all (cs ++ ds) f ≡ note_all ds (note_all cs f)
note_all-append [] ds f = refl
note_all-append ((slot, text) ∷ cs) ds f = note_all-append cs ds (push_capture slot text f)

abbrev pub AtMostMore : ℕ → ℕ → Option ℕ → Type 0
AtMostMore m count none = Unit
AtMostMore m count (some hi) = m ≤ hi - count

-- A part, and then what follows it.
pub record Then (Part : ℕ → List Capture → Type 0) (After : ℕ → List Capture → Type 0)
    (cs : List Capture) : Type 0 where
  pub stop : ℕ
  pub inner : List Capture
  pub outer : List Capture
  pub part : Part stop inner
  pub after : After stop outer
  pub split : cs ≡ inner ++ outer

module _ (g : Grammar) (line : Bytes) where
  -- The rest of a repetition that has matched its child `count` times.
  pub record Rest (n count i j : ℕ) (cs : List Capture) : Type 0 where
    pub more : ℕ
    pub times : Times g line (child g (node g n).first) more i j cs
    pub enough : (node g n).lo ≤ count + more
    pub few : AtMostMore more count (node g n).hi

  abbrev pub Follows : Continuation → ℕ → List Capture → Type 0
  Follows [] i cs = (i ≡ length line) × (cs ≡ [])
  Follows (run_node n ∷ next) i cs = Then (Derives g line n i) (Follows next) cs
  Follows (sequence_at n k ∷ next) i cs =
      Then (Each g line ((node g n).first + k) ((node g n).count - k) i) (Follows next) cs
  Follows (repeat_at n count start ∷ next) i cs = Then (Rest n count i) (Follows next) cs
  Follows (close_capture slot start ∷ next) i cs =
      (ds : List Capture) × Follows next i ds × (cs ≡ (slot, substr start (i - start) line) ∷ ds)

pub AtMostMore-suc :
    (m count : ℕ) (o : Option ℕ) (b : Bool)
    → elim o [ none ↦ true | some hi ↦ ltb count hi ] && b ≡ true
    → AtMostMore m (count + 1) o
    → AtMostMore (suc m) count o
AtMostMore-suc m count none b h l = tt
AtMostMore-suc m count (some hi) b h l =
    let less = (&&_true (ltb count hi) b h).0 in ground (arith, ltb→lt count hi less)

pub AtMostMore-zero : (count : ℕ) (o : Option ℕ) → AtMostMore 0 count o
AtMostMore-zero count none = tt
AtMostMore-zero count (some hi) = omega arith

pub AtMostMore→AtMost : (m : ℕ) (o : Option ℕ) → AtMostMore m 0 o → AtMost m o
AtMostMore→AtMost m none h = tt
AtMostMore→AtMost m (some hi) h = omega arith

-- A success has noted captures with `P`; a failure has noted nothing.
abbrev pub Outcome : (List Capture → Type 0) → Found → Bool × Walk → Type 0
Outcome P f (true, w) = (cs : List Capture) × P cs × (w.found ≡ note_all cs f)
Outcome P f (false, w) = w.found ≡ f

module _ (P Q : List Capture → Type 0) (f : Found) where
  pub Outcome-mono :
      (r : Bool × Walk) → ((cs : List Capture) → P cs → Q cs) → Outcome P f r → Outcome Q f r
  Outcome-mono (true, w) g (cs, p, e) = (cs, g cs p, e)
  Outcome-mono (false, w) g e = e

module _ (P : List Capture → Type 0) (f : Found) where
  pub Outcome-or_else :
      (r : Bool × Walk) (next : Walk → Bool × Walk)
      → Outcome P f r
      → ((w : Walk) → w.found ≡ f → Outcome P f (next w))
      → Outcome P f (or_else r next)
  Outcome-or_else (true, w) next h k = h
  Outcome-or_else (false, w) next h k =
      elim w.exhausted as (λ b. Outcome P f (elim b [ true ↦ (false, w) | false ↦ next w ])) [
        | true ↦ h
        | false ↦ k w h
      ]

  pub Outcome-unless_exhausted :
      (w : Walk) (next : Walk → Bool × Walk)
      → w.found ≡ f
      → Outcome P f (next w)
      → Outcome P f (unless_exhausted w next)
  Outcome-unless_exhausted w next h k =
      elim w.exhausted as (λ b. Outcome P f (elim b [ true ↦ (false, w) | false ↦ next w ])) [
        | true ↦ h
        | false ↦ k
      ]
