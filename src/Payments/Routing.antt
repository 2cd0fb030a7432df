-- ===== src/Payments/Routing.antt =====
-- payfund_app/modules/payments/application/processor_router.py: the registry of processors. The
-- dictionary is a list of entries in the order of registration.
pub mod Select
use Prim.Native.String.{◌++◌ as ◌^◌}
use Prim.Native.String.{compare as compare_text}
use Prim.Native.Nat.{Ordering, compare}
use diddi_pay_backend.Prelude.{
  ℕ, ◌++◌, Bool, true, false, String, str_eq, is_empty, Option, none, some, List, [], ◌∷◌, map,
  if◌then◌else◌, find_row, to_text,
}
use diddi_pay_backend.Payments.Errors.{Result, ok, err, ◌>>=◌, processor_routing_error, value_error}
use diddi_pay_backend.Payments.Ports.{
  PaymentDirection, PaymentProcessorPort, direction_enum, supports,
}

-- `SIMULATED_PROCESSOR_NAMES`
abbrev pub simulated_processor_names : List String
simulated_processor_names = "sandbox" ∷ []

pub record Entry : Type 0 where
  pub priority : ℕ
  pub processor : PaymentProcessorPort

abbrev pub ProcessorRegistry : Type 0
ProcessorRegistry = List Entry

abbrev pub is_named : String → Entry → Bool
is_named name entry = str_eq entry.processor.name name

abbrev register_unless : Option Entry → ProcessorRegistry → Entry → Result ProcessorRegistry
register_unless (some _) registry entry = err value_error
register_unless none registry entry = ok (registry ++ entry ∷ [])

unfoldable pub register : PaymentProcessorPort → ℕ → ProcessorRegistry → Result ProcessorRegistry
register processor priority registry =
    register_unless (find_row (is_named processor.name) registry) registry
      (record { priority = priority; processor = processor })

abbrev found_or : Option Entry → String → Result PaymentProcessorPort
found_or (some entry) name = ok entry.processor
found_or none name = err (processor_routing_error ("processor '" ^ name ^ "' is not registered"))

unfoldable pub get : String → ProcessorRegistry → Result PaymentProcessorPort
get name registry = found_or (find_row (is_named name) registry) name

-- The order of the keys (priority, name).
abbrev by_name : Ordering → String → String → Bool
by_name Ordering.lt s t = true
by_name Ordering.gt s t = false
by_name Ordering.eq s t = elim (compare_text s t) [ Ordering.gt ↦ false | _ ↦ true ]

unfoldable pub comes_first : Entry → Entry → Bool
comes_first a b = by_name (compare a.priority b.priority) a.processor.name b.processor.name

unfoldable pub insert_entry : Entry → List Entry → List Entry
insert_entry a [] = a ∷ []
insert_entry a (b ∷ bs) =
    let rest = insert_entry a bs in if comes_first a b then a ∷ b ∷ bs else b ∷ rest

unfoldable pub sort_entries : List Entry → List Entry
unfolding insert_entry
sort_entries [] = []
sort_entries (a ∷ rest) = insert_entry a (sort_entries rest)

unfoldable pub ordered : ProcessorRegistry → List PaymentProcessorPort
unfolding sort_entries
ordered registry = map (λ entry. entry.processor) (sort_entries registry)

abbrev pub text_or_none : Option String → String
text_or_none none = "None"
text_or_none (some s) = s

abbrev no_support : String → PaymentDirection → Option String → Option String → String
no_support currency direction channel network =
    "no processor supports direction="
    ^ to_text direction
    ^ " currency="
    ^ currency
    ^ " channel="
    ^ text_or_none channel
    ^ " network="
    ^ text_or_none network

-- The loop of `select`.
unfoldable pub first_supporting :
    String
    → PaymentDirection
    → Option String
    → Option String
    → List PaymentProcessorPort
    → Result PaymentProcessorPort
first_supporting currency direction channel network [] =
    err (processor_routing_error (no_support currency direction channel network))
first_supporting currency direction channel network (p ∷ ps) =
    if supports p.capabilities currency direction channel network
    then ok p
    else first_supporting currency direction channel network ps

-- `[self.get(preferred)] if preferred else self.ordered()`
unfoldable pub candidates : Option String → ProcessorRegistry → Result (List PaymentProcessorPort)
unfolding get ordered
candidates none registry = ok (ordered registry)
candidates (some name) registry =
    if is_empty name then ok (ordered registry) else (get name registry >>= λ p. ok (p ∷ []))

unfoldable pub select :
    String
    → PaymentDirection
    → Option String
    → Option String
    → Option String
    → ProcessorRegistry
    → Result PaymentProcessorPort
unfolding candidates first_supporting
select currency direction channel network preferred registry =
    candidates preferred registry >>= first_supporting currency direction channel network
