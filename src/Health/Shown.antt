-- ===== src/Health/Shown.antt =====
-- What the API shows of the routes' health, where the notes of the checks agree with the table.
use catalyst_router.Prelude.{
  String, List, [], ◌∷◌, Option, none, some, map, ◌≡◌, refl, sym, ap, ap₂, ◌∙◌, subst, inl, inr,
  Bool-cases, All, Distinct, includes, lookup, lookup-none, ==_refl, ==_eq, ◌==◌, string_key,
  if◌then◌else◌,
}
use catalyst_router.Table.{HealthStatus, DataChannel}
use catalyst_router.Rib.Invariant.{channel_name}
use catalyst_router.Health.{AdapterHealth, HealthMap, get_health, apply_health, shown}
use catalyst_router.Health.Agreement.{HasStatus}

-- Under its own name each route has the status that the checks have noted.
pub own-status :
    (m : HealthMap) (rs : List DataChannel)
    → Distinct (map channel_name rs)
    → ((name : String) → HasStatus (lookup channel_name name rs) (get_health m name))
    → All (λ r. HasStatus (some r) (get_health m r.name)) rs
own-status m [] d a = tt
own-status m (r ∷ rs) d a = (
  subst (λ b. HasStatus (if b then some r else lookup channel_name r.name rs) (get_health m r.name))
      (==_refl r.name) (a r.name),
  own-status m rs d.1 (λ name. elim (Bool-cases (r.name == name)) [
    | inl own ↦
        let absent =
          lookup-none channel_name name rs
            (ap (includes (map channel_name rs)) (sym (==_eq r.name name own)) ∙ d.0) in
        rw absent tt
    | inr other ↦
        subst
          (λ b. HasStatus (if b then some r else lookup channel_name name rs) (get_health m name))
          other (a name)
  ]),
)

abbrev pub status_of : DataChannel → Option HealthStatus
status_of r = r.health_status

shown-status :
    (r : DataChannel) (h : Option AdapterHealth)
    → HasStatus (some r) h
    → (shown r h).health_status ≡ r.health_status
shown-status r none s = refl
shown-status r (some h) s = sym s

pub apply_health-status :
    (m : HealthMap) (rs : List DataChannel)
    → All (λ r. HasStatus (some r) (get_health m r.name)) rs
    → map status_of (apply_health m rs) ≡ map status_of rs
unfolding apply_health
apply_health-status m [] h = refl
apply_health-status m (r ∷ rs) h =
    ap₂ ◌∷◌ (shown-status r (get_health m r.name) h.0) (apply_health-status m rs h.1)
