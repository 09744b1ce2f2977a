-- ===== src/Tests/Ids.antt =====
-- The properties of the Requirement ID, each at one input.
use sdlc.Base.{◌≡◌, refl}
use sdlc.ProjectCode.{codes, lstrip, rstrip}
use sdlc.RequirementId.{raw_infix, read_number, namespaced_requirement_id}
use sdlc.RequirementId.Rendered.{namespaced_requirement_id-injective}

namespaced_requirement_id-injective_example :
    (codes "PAA" ≡ codes "PAA")
    × (raw_infix ≡ raw_infix)
    × (read_number (rstrip (lstrip (codes "42"))) ≡ read_number (rstrip (lstrip (codes " 0042 "))))
unfolding namespaced_requirement_id codes
namespaced_requirement_id-injective_example =
    namespaced_requirement_id-injective (codes "PAA") (codes "PAA") raw_infix raw_infix (codes "42")
      (codes " 0042 ") (codes "PAA-RAW-0042") (refl, (refl, (refl, tt))) (refl, (refl, (refl, tt)))
      (refl, (refl, (refl, tt))) (refl, (refl, (refl, tt))) refl refl
