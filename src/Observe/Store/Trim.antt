-- ===== src/Observe/Store/Trim.antt =====
-- The loop of AppendEvent (observability.go) against the longest run of last events within limits.
use agentwrap.Prelude.{
  ℕ, ◌+◌, ◌-◌, ◌≤◌, ℤ, pos, negsuc, ◌≡◌, refl, ap, ◌∙◌, inl, inr, true, false, Bool-cases, or_false,
  List, [], ◌∷◌, ◌++◌, length, length-append, arith, if◌then◌else◌,
}
use agentwrap.Observe.Records.{RunEventRecord}
use agentwrap.Observe.Store.{MemoryRunStoreLimits, over, event_limit_exceeded, trim}

unfoldable pub bytes : List RunEventRecord → ℕ
bytes [] = 0
bytes (e ∷ es) = length e.raw_data + bytes es

pub Within : MemoryRunStoreLimits → List RunEventRecord → Type 0
unfolding event_limit_exceeded bytes
Within l es = event_limit_exceeded l es (bytes es) ≡ false

-- The last events of `all` that stay within both limits, as many as can be.
pub record LongestWithin (l : MemoryRunStoreLimits) (all kept : List RunEventRecord) : Type 0 where
  pub dropped : List RunEventRecord
  pub split : all ≡ dropped ++ kept
  pub fits : Within l kept
  pub longest :
      (front back : List RunEventRecord)
      → all ≡ front ++ back
      → Within l back
      → length back ≤ length kept

-- The loop started at the number of bytes of the events themselves.
unfoldable pub keep : MemoryRunStoreLimits → List RunEventRecord → List RunEventRecord
unfolding event_limit_exceeded bytes
keep l [] = []
keep l (e ∷ es) =
    let rest = keep l es in
    if event_limit_exceeded l (e ∷ es) (bytes (e ∷ es)) then rest else e ∷ es

pub trim-keep :
    (l : MemoryRunStoreLimits) (es : List RunEventRecord)
    → trim l es (bytes es) ≡ (keep l es, bytes (keep l es))
unfolding trim keep bytes
trim-keep l [] = refl
trim-keep l (e ∷ es) =
    elim (Bool-cases (event_limit_exceeded l (e ∷ es) (length e.raw_data + bytes es))) [
      | inl t ↦
          let less : length e.raw_data + bytes es - length e.raw_data ≡ bytes es = omega arith in
          rw (t, less) (trim-keep l es)
      | inr f ↦ rw f refl
    ]

pub over_mono : (limit : ℤ) (m n : ℕ) → m ≤ n → over limit n ≡ false → over limit m ≡ false
over_mono (pos limit) m n le h = ground (arith)
over_mono (negsuc k) m n le h = refl

bytes-append : (xs ys : List RunEventRecord) → bytes (xs ++ ys) ≡ bytes xs + bytes ys
unfolding bytes
bytes-append [] ys = omega arith
bytes-append (x ∷ xs) ys = omega (arith, bytes-append xs ys)

-- Fewer events at either end stay within the limits.
Within-front :
    (l : MemoryRunStoreLimits) (xs ys : List RunEventRecord) → Within l (xs ++ ys) → Within l xs
unfolding Within event_limit_exceeded
Within-front l xs ys h =
    let sides = or_false _ _ h in
    rw
      (
        over_mono l.max_events_per_run (length xs) _ (omega (arith, length-append xs ys)) sides.0,
        over_mono l.max_raw_bytes_per_run (bytes xs) _ (omega (arith, bytes-append xs ys)) sides.1,
      )
      refl

keep-append :
    (l : MemoryRunStoreLimits) (xs : List RunEventRecord) (e : RunEventRecord)
    → keep l (keep l xs ++ e ∷ []) ≡ keep l (xs ++ e ∷ [])
unfolding keep Within
keep-append l [] e = refl
keep-append l (x ∷ xs) e = elim (Bool-cases (event_limit_exceeded l (x ∷ xs) (bytes (x ∷ xs)))) [
  | inl t ↦
      elim (Bool-cases (event_limit_exceeded l (x ∷ xs ++ e ∷ []) (bytes (x ∷ xs ++ e ∷ [])))) [
        | inl u ↦ rw (t, u) (keep-append l xs e)
        | inr g ↦ absurd (cc (t, Within-front l (x ∷ xs) (e ∷ []) g))
      ]
  | inr f ↦ rw f refl
]

pub nothing_over : (limit : ℤ) → over limit 0 ≡ false
nothing_over (pos limit) = ground (arith)
nothing_over (negsuc k) = refl

back_le :
    (front back : List RunEventRecord) {all : List RunEventRecord}
    → all ≡ front ++ back
    → length back ≤ length all
back_le front back e = omega (arith, length-append front back, ap length e)

keep_dropped :
    (l : MemoryRunStoreLimits) (x : RunEventRecord) (xs kept : List RunEventRecord)
    → event_limit_exceeded l (x ∷ xs) (bytes (x ∷ xs)) ≡ true
    → LongestWithin l xs kept
    → LongestWithin l (x ∷ xs) kept
unfolding Within
keep_dropped l x xs kept t lw = record {
  dropped = x ∷ lw.dropped;
  split = ap (λ es. x ∷ es) lw.split;
  fits = lw.fits;
  longest = shorter lw.longest;
}
  where
    shorter :
        ((front back : List RunEventRecord)
          → xs ≡ front ++ back
          → Within l back
          → length back ≤ length kept)
        → (front back : List RunEventRecord) → x ∷ xs ≡ front ++ back
        → Within l back
        → length back ≤ length kept
    shorter longest [] back e h = absurd (cc (t, h, e))
    shorter longest (y ∷ front) back e h = longest front back (cc e) h

pub keep-LongestWithin :
    (l : MemoryRunStoreLimits) (all : List RunEventRecord) → LongestWithin l all (keep l all)
unfolding keep Within event_limit_exceeded bytes
keep-LongestWithin l [] = record {
  dropped = [];
  split = refl;
  fits = rw (nothing_over l.max_events_per_run, nothing_over l.max_raw_bytes_per_run) refl;
  longest = λ front back e h. back_le front back e;
}
keep-LongestWithin l (x ∷ xs) =
    elim (Bool-cases (event_limit_exceeded l (x ∷ xs) (bytes (x ∷ xs)))) [
      | inl t ↦ rw t (keep_dropped l x xs (keep l xs) t (keep-LongestWithin l xs))
      | inr f ↦ rw f (record {
        dropped = [];
        split = refl;
        fits = f;
        longest = λ front back e h. back_le front back e;
      })
    ]

-- The loop, on what was kept before and one event more.
pub trim-append :
    (l : MemoryRunStoreLimits) (since held : List RunEventRecord) (counted : ℕ) (e : RunEventRecord)
    → held ≡ keep l since
    → counted ≡ bytes (keep l since)
    → trim l (held ++ e ∷ []) (counted + length e.raw_data)
      ≡ (keep l (since ++ e ∷ []), bytes (keep l (since ++ e ∷ [])))
unfolding bytes
trim-append l since held counted e h c =
    let sum : counted + length e.raw_data ≡ bytes (held ++ e ∷ []) =
      omega (arith, bytes-append held (e ∷ []), ap bytes h, c) in
    let same : keep l (held ++ e ∷ []) ≡ keep l (since ++ e ∷ []) = rw h (keep-append l since e) in
    rw sum (trim-keep l (held ++ e ∷ []) ∙ ap (λ es. (es, bytes es)) same)
