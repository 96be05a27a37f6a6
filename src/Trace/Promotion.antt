-- ===== src/Trace/Promotion.antt =====
-- lib/trace/promotion.ts: which events are mirrored into Trace.
use wtr.Common.{Bool, List, [], ◌∷◌, any}
use wtr.Pipeline.Types.{EventType, same_type}

-- `PROMOTABLE_EVENTS`
abbrev pub promotable_events : List EventType
promotable_events =
    EventType.consent_changed ∷ EventType.kyc_changed ∷ EventType.license_changed
    ∷ EventType.takedown ∷ EventType.payout_credited ∷ []

-- `isPromotable`
abbrev pub is_promotable : EventType → Bool
is_promotable event_type = any (λ e. same_type e event_type) promotable_events
