-- ===== src/Initiatives/Examples.antt =====
-- A run of `expire_due` and `list_active` over two initiatives.
use zero_hdsc.Base.{
  ℕ, String, ◌≡◌, refl, false, List, [], ◌∷◌, some, All, order_by, select, update_where, fetch_all,
}
use zero_hdsc.Domain.Initiatives.{
  Initiative, InitiativeStatus, initiative_status_of, initiative_status_value,
}
use zero_hdsc.Rows.Json.{or_default}
use zero_hdsc.Rows.Initiatives.{InitiativeRow, initiative_row, row_to_initiative}
use zero_hdsc.Rows.Examples.{notes, some_initiative}
use zero_hdsc.Initiatives.{expire_due, list_active, is_expired}
use zero_hdsc.Initiatives.Expiry.{list_active-expire_due}

abbrev late : Initiative ℕ String
late = record some_initiative {
  id = "late";
  status = InitiativeStatus.approved;
  expires_at_ms = some 50;
}

abbrev early : Initiative ℕ String
early = record late { id = "early"; expires_at_ms = some 500 }

abbrev two_initiatives : List (InitiativeRow ℕ)
two_initiatives = initiative_row notes late ∷ initiative_row notes early ∷ []

list_active-expire_due_example :
    All (λ (i : Initiative ℕ String). is_expired i.expires_at_ms 100 ≡ false) (early ∷ [])
unfolding initiative_row row_to_initiative expire_due list_active order_by select update_where
    fetch_all initiative_status_of initiative_status_value or_default
list_active-expire_due_example =
    list_active-expire_due notes "conversation_id" 100 two_initiatives (early ∷ []) refl
