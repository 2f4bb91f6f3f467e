-- ===== src/Shell/Links.antt =====
-- The link of the sidebar that is shown as the current page.
use jobrunner.Prelude.{
  ◌==◌, ==_iff, JsString, [], ◌∷◌, Bool, true, false, not, ◌||◌, ◌≡◌, refl, arith,
}
use jobrunner.Shell.{AppShell, begins, is_active}

-- Two texts that both begin a third one begin alike, up to the length of the shorter one.
abbrev pub clash : JsString → JsString → Bool
clash [] q = false
clash (c ∷ p) [] = false
clash (c ∷ p) (d ∷ q) = not (c == d) || clash p q

begins-clash : (p q s : JsString) → clash p q ≡ true → begins p s ≡ true → begins q s ≡ false
begins-clash [] q s h k = cc
begins-clash (c ∷ p) [] s h k = cc
begins-clash (c ∷ p) (d ∷ q) [] h k = refl
begins-clash (c ∷ p) (d ∷ q) (e ∷ s) h k =
    ground (arith, begins-clash p q s, ==_iff c e, ==_iff d e, ==_iff c d)

-- While one link of the sidebar is shown as the current page, no other one is.
pub is_active-clash :
    (path other : JsString) (s : AppShell)
    → clash path other ≡ true
    → is_active path s ≡ true
    → is_active other s ≡ false
unfolding is_active
is_active-clash path other s h k = begins-clash path other s.current_path h k
