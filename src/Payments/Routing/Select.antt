-- ===== src/Payments/Routing/Select.antt =====
-- What the routing of payfund_app/modules/payments/application/processor_router.py selects.
use diddi_pay_backend.Prelude.{
  ◌≡◌, ◌⊎◌, ◌is_in◌, mem_text, upper, subst, refl, true, false, String, eq_iff, is_empty, Option,
  none, some, List, [], ◌∷◌, arith, find_row, find_row-passes, Bool-cases, Option-cases, inl, inr,
}
use diddi_pay_backend.Payments.Errors.{ok}
use diddi_pay_backend.Payments.Ports.{
  PaymentDirection, PaymentProcessorPort, direction_enum, excludes, supports,
}
use diddi_pay_backend.Payments.Routing.{
  Entry, ProcessorRegistry, is_named, get, first_supporting, candidates, ordered, select,
}

-- What is asked for is nothing, the empty text or declared; no declaration takes everything.
abbrev pub Takes : Option String → List String → Type 0
Takes asked declared =
    (wanted : String)
    → asked ≡ some wanted
    → is_empty wanted ≡ false
    → (declared ≡ []) ⊎ (mem_text wanted declared ≡ true)

not_excluded :
    (declared : List String) (asked : Option String)
    → excludes declared asked ≡ false
    → Takes asked declared
not_excluded [] asked h = λ wanted e full. inl refl
not_excluded (d ∷ ds) none h = λ wanted e full. ground arith
not_excluded (d ∷ ds) (some name) h = λ wanted e full. inr (ground arith)

module _ (currency : String) (direction : PaymentDirection) (channel network : Option String) where
  -- The processor declares the currency, in capital letters, and the direction; it declares the channel and
  -- the network that are asked for, or leaves them open.
  abbrev pub Serves : PaymentProcessorPort → Type 0
  Serves p =
      (mem_text (upper currency) p.capabilities.currencies ≡ true)
      × (direction is_in p.capabilities.directions ≡ true)
      × Takes channel p.capabilities.channels
      × Takes network p.capabilities.networks

  supports-Serves :
      (p : PaymentProcessorPort)
      → supports p.capabilities currency direction channel network ≡ true
      → Serves p
  unfolding supports
  supports-Serves p h = (
    ground arith,
    ground arith,
    not_excluded p.capabilities.channels channel (ground arith),
    not_excluded p.capabilities.networks network (ground arith),
  )

  first_supporting-Serves :
      (ps : List PaymentProcessorPort) (p : PaymentProcessorPort)
      → first_supporting currency direction channel network ps ≡ ok p
      → Serves p
  unfolding first_supporting
  first_supporting-Serves [] p h = ground arith
  first_supporting-Serves (q ∷ qs) p h =
      elim (Bool-cases (supports q.capabilities currency direction channel network)) [
        | inl yes' ↦ let same : q ≡ p = ground arith in subst Serves same (supports-Serves q yes')
        | inr no' ↦ ground (arith, first_supporting-Serves qs p)
      ]

  -- A processor that is selected declares the currency and the direction of the request, declares
  -- the channel and the network that it asks for, if any, or leaves them open, and is the
  -- preferred one if one was named.
  pub select-Serves :
      (preferred : Option String) (registry : ProcessorRegistry) (p : PaymentProcessorPort)
      → select currency direction channel network preferred registry ≡ ok p
      → Serves p × ((name : String) → preferred ≡ some name → is_empty name ≡ false → p.name ≡ name)
  unfolding select candidates get first_supporting
  select-Serves none registry p h =
      (first_supporting-Serves (ordered registry) p h, λ name e. ground arith)
  select-Serves (some wanted) registry p h = elim (Bool-cases (is_empty wanted)) [
    | inl blank ↦
        (first_supporting-Serves (ordered registry) p (ground arith), λ name e full. ground arith)
    | inr full' ↦ elim (Option-cases (find_row (is_named wanted) registry)) [
      | inl absent ↦ absurd (ground arith)
      | inr (entry, found) ↦ (
        first_supporting-Serves (entry.processor ∷ []) p (ground arith),
        λ name e full. ground (arith, named entry found),
      )
    ]
  ]
    where
      named :
          (entry : Entry)
          → find_row (is_named wanted) registry ≡ some entry
          → entry.processor.name ≡ wanted
      named entry found =
          (eq_iff entry.processor.name wanted).0
            (find_row-passes (is_named wanted) registry entry found)
