-- ===== src/Settings/Claims.antt =====
-- When the form asks the cluster for the claims of the namespace.
use jobrunner.Prelude.{
  ◌==◌, List, none, some, Bool, false, not, ◌&&◌, ◌≡◌, refl, Answer, ok, failed, str_eq,
  str_eq_refl, Bool-cases, inl, inr, arith, ◌∙◌, if◌then◌else◌,
}
use jobrunner.Client.{Pvc}
use jobrunner.Settings.{GlobalSettings, namespace_of, fetch_pvcs, pvcs_fetched, updated}

-- The tab of the volume is open on a namespace whose claims were not asked for.
abbrev asks : GlobalSettings → Bool
asks s = (s.active_tab == 2) && not (str_eq (namespace_of s.pipeline) s.last_fetched_namespace)

asked : (s : GlobalSettings) → asks s ≡ false → (updated s).1 ≡ none
unfolding updated
asked s h = rw h refl

asks-pvcs_fetched : (a : Answer (List Pvc)) (s : GlobalSettings) → asks (pvcs_fetched a s) ≡ asks s
unfolding pvcs_fetched
asks-pvcs_fetched (ok pvcs) s = refl
asks-pvcs_fetched (failed message) s = refl

asks-updated : (s : GlobalSettings) → asks (updated s).0 ≡ false
unfolding updated fetch_pvcs
asks-updated s = elim (Bool-cases (asks s)) [
  | inl due ↦ rw (due, str_eq_refl (namespace_of s.pipeline)) (ground arith)
  | inr quiet ↦ rw (quiet, quiet) refl
]

-- The form asks for the claims of its namespace exactly when the tab of the volume is open and they
-- were not the last ones asked for. It then asks no more until one of these changes: neither when
-- it is updated again, nor when the answer comes, an error included.
pub updated_settles :
    (s : GlobalSettings) (a : Answer (List Pvc))
    → ((updated s).1 ≡ (if asks s then some (namespace_of s.pipeline) else none))
      × ((updated (updated s).0).1 ≡ none)
      × ((updated (pvcs_fetched a (updated s).0)).1 ≡ none)
unfolding updated fetch_pvcs
updated_settles s a = (
  elim (Bool-cases (asks s)) [ inl due ↦ rw due refl | inr quiet ↦ rw quiet refl ],
  asked _ (asks-updated s),
  asked _ (asks-pvcs_fetched a _ ∙ asks-updated s),
)
