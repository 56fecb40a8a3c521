-- ===== src/Wasm/Gas/FreeTier.antt =====
-- `EventCosts`: the free tier is handed from event to event, and is used once over all of them.
use bignftd.Base.{ℕ, ◌+◌, ◌-◌, ◌*◌, ◌<◌, ◌≡◌, refl, ap, ◌∙◌, List, [], ◌∷◌, arith, length, lt→ltb}
use bignftd.Chain.Outcome.{ok}
use bignftd.Wasm.Gas.{
  GasConfig, Attribute, WasmEvent, u64_mod, add64, mul64, calc_with_free_tier, sum_bytes,
  event_attribute_costs, event_loop, event_costs,
}

-- The bytes of attributes, with no bound.
abbrev pub bytes_of : List Attribute → ℕ
bytes_of [] = 0
bytes_of (a ∷ attrs) = length a.key + length a.value + bytes_of attrs

abbrev pub all_bytes : List WasmEvent → ℕ
all_bytes [] = 0
all_bytes (e ∷ events) = bytes_of e.attributes + all_bytes events

module _ (g : GasConfig) where
  -- What the bytes past the free tier cost, and what each attribute and each event costs.
  abbrev pub data_price : ℕ → ℕ
  data_price bytes = g.event_attribute_data_cost * (bytes - g.event_attribute_data_free_tier)

  abbrev pub attribute_price : List Attribute → ℕ
  attribute_price attrs = g.event_per_attribute_cost * length attrs

  abbrev pub event_price : List WasmEvent → ℕ
  event_price [] = 0
  event_price (e ∷ events) =
      g.custom_event_cost
      + length e.kind * g.event_attribute_data_cost
      + attribute_price e.attributes
      + event_price events

  sum_bytes-eq :
      (acc : ℕ) (attrs : List Attribute)
      → acc + bytes_of attrs < u64_mod
      → sum_bytes acc attrs ≡ acc + bytes_of attrs
  unfolding sum_bytes
  sum_bytes-eq acc [] h = omega arith
  sum_bytes-eq acc (a ∷ attrs) h =
      let e : add64 acc (add64 (length a.key) (length a.value))
          ≡ acc + (length a.key + length a.value) =
        omega arith in
      rw e (omega (arith, sum_bytes-eq (acc + (length a.key + length a.value)) attrs (omega arith)))

  sum_bytes_all :
      (attrs : List Attribute) → bytes_of attrs < u64_mod → sum_bytes 0 attrs ≡ bytes_of attrs
  sum_bytes_all attrs h = sum_bytes-eq 0 attrs (omega arith) ∙ omega arith

  calc_with_free_tier-eq :
      (bytes free : ℕ) → calc_with_free_tier bytes free ≡ (bytes - free, free - bytes)
  unfolding calc_with_free_tier
  calc_with_free_tier-eq bytes free = ground arith

  -- One round: the charge is for the bytes past the free tier, and the rest of the tier is left.
  event_attribute_costs-eq :
      (attrs : List Attribute) (free : ℕ)
      → bytes_of attrs < u64_mod
      → g.event_attribute_data_cost * (bytes_of attrs - free) + attribute_price attrs < u64_mod
      → event_attribute_costs g attrs free
        ≡ ok (
          g.event_attribute_data_cost * (bytes_of attrs - free) + attribute_price attrs,
          free - bytes_of attrs,
        )
  unfolding event_attribute_costs
  event_attribute_costs-eq [] free h fits = ground arith
  event_attribute_costs-eq (a ∷ attrs) free h fits = rw (sum_bytes_all (a ∷ attrs) h) (
      rw (calc_with_free_tier-eq (bytes_of (a ∷ attrs)) free) (
        rw
          (lt→ltb
            (g.event_attribute_data_cost * (bytes_of (a ∷ attrs) - free)
              + attribute_price (a ∷ attrs))
            u64_mod fits)
          refl))

  -- The tier that is left over behind some bytes, and the bytes that pass it, add up.
  data_split :
      (d bytes rest free : ℕ)
      → d * (bytes - free) + d * (rest - (free - bytes)) ≡ d * (bytes + rest - free)
  data_split d bytes rest free =
      let e : (bytes - free) + (rest - (free - bytes)) ≡ bytes + rest - free = omega arith in
      omega (arith, ap (λ (t : ℕ). d * t) e)

  event_loop-eq :
      (gas free : ℕ) (events : List WasmEvent)
      → all_bytes events < u64_mod
      → gas + g.event_attribute_data_cost * (all_bytes events - free) + event_price events < u64_mod
      → event_loop g gas free events
        ≡ ok (gas + g.event_attribute_data_cost * (all_bytes events - free) + event_price events)
  unfolding event_loop
  event_loop-eq gas free [] h fits = ground arith
  event_loop-eq gas free (e ∷ events) h fits =
      let split =
        data_split g.event_attribute_data_cost (bytes_of e.attributes) (all_bytes events) free in
      let cost =
        g.event_attribute_data_cost * (bytes_of e.attributes - free)
        + attribute_price e.attributes in
      let sum : add64
            (add64 (add64 gas g.custom_event_cost)
              (mul64 (length e.kind) g.event_attribute_data_cost))
            cost
          ≡ gas + g.custom_event_cost + length e.kind * g.event_attribute_data_cost + cost =
        omega (arith, split) in
      let next = gas + g.custom_event_cost + length e.kind * g.event_attribute_data_cost + cost in
      let total : next
            + g.event_attribute_data_cost * (all_bytes events - (free - bytes_of e.attributes))
            + event_price events
          ≡ gas
            + g.event_attribute_data_cost * (all_bytes (e ∷ events) - free)
            + event_price (e ∷ events) =
        omega (arith, split) in
      rw (event_attribute_costs-eq e.attributes free (omega arith) (omega (arith, split))) (
        rw sum (
          event_loop-eq next (free - bytes_of e.attributes) events (omega arith)
            (omega (arith, total))
          ∙ ap ok total))

  -- Where the total fits in 64 bits, the cost of the attributes and events of a response is the
  -- price of all the attribute bytes past the free tier, which is taken off once, and of each
  -- attribute, event and byte of an event's type.
  pub event_costs-eq :
      (attrs : List Attribute) (events : List WasmEvent)
      → bytes_of attrs + all_bytes events < u64_mod
      → data_price (bytes_of attrs + all_bytes events) + attribute_price attrs + event_price events
        < u64_mod
      → event_costs g attrs events
        ≡ ok (
            data_price (bytes_of attrs + all_bytes events)
            + attribute_price attrs
            + event_price events)
  unfolding event_costs
  event_costs-eq attrs events h fits =
      let free = g.event_attribute_data_free_tier in
      let split = data_split g.event_attribute_data_cost (bytes_of attrs) (all_bytes events) free in
      let cost = g.event_attribute_data_cost * (bytes_of attrs - free) + attribute_price attrs in
      let total : cost
            + g.event_attribute_data_cost * (all_bytes events - (free - bytes_of attrs))
            + event_price events
          ≡ data_price (bytes_of attrs + all_bytes events)
            + attribute_price attrs
            + event_price events =
        omega (arith, split) in
      rw (event_attribute_costs-eq attrs free (omega arith) (omega (arith, split))) (
        event_loop-eq cost (free - bytes_of attrs) events (omega arith) (omega (arith, total))
        ∙ ap ok total)
