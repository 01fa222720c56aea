-- ===== src/Core/Delivery/Tests.antt =====
-- Runs of the validation of deliveries.
use pluribus.Base.{ok, err, refl, ◌≡◌, ◌↔◌, [], ◌∷◌}
use pluribus.Core.Delivery.{DeliveryCommit, DeliveryError, validate}
use pluribus.Core.Examples.{first_delivery, first_request}

abbrev repeating : DeliveryCommit
repeating = record first_delivery { events = first_request ∷ first_request ∷ [] }

repeating_refused :
    validate repeating ≡ err (DeliveryError.invalid "batch repeats a deduplication key")
unfolding validate pluribus.Core.Event.validate pluribus.Base.dedup pluribus.Base.sort
    pluribus.Base.text_le
repeating_refused = refl
