-- ===== src/Rows/Contacts/ReadBack.antt =====
-- src/ssa/storage/lifecycle_repository.py: what is read back from a row of contact episodes.
use zero_hdsc.Base.{refl, ◌≡◌, ok}
use zero_hdsc.Domain.Contacts.{
  ContactEpisode, contact_phase_of-contact_phase_value, contact_status_of-contact_status_value,
}
use zero_hdsc.Rows.Json.{Json, Reads, or_default-dumps}
use zero_hdsc.Rows.Contacts.{contact_row, row_to_contact}

-- A contact episode whose JSON columns are not empty and are read back by json.loads is read back from its row as it was.
pub row_to_contact-contact_row {ℓ} :
    {V : Type ℓ} (json : Json V) (contact : ContactEpisode V)
    → Reads json contact.hypotheses
    → row_to_contact json (contact_row json contact) ≡ ok contact
unfolding row_to_contact contact_row
row_to_contact-contact_row json contact h1 =
    rw
      (
        contact_phase_of-contact_phase_value contact.phase,
        contact_status_of-contact_status_value contact.status,
        or_default-dumps json contact.hypotheses "{}" h1.0,
        h1.1,
      )
      refl
