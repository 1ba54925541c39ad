-- ===== src/DocentClient/Address.antt =====
-- The server address of TimeMachineAR/Source/TimeMachineAR/DocentClient.cpp.
use ai_xr_project.Base.{
  ℕ, zero, suc, ◌≤◌, ◌<◌, ◌≡◌, Option, true, false, arith, Bool-cases, inl, inr,
}
use ai_xr_project.SseParser.{Strings}
use ai_xr_project.DocentClient.{
  Platform, DocentClient, chop_slashes, normalize_url, normalize_server_base_url,
  set_server_base_url, initialize,
}

module _ (S : Strings) (P : Platform S) where
  chop_slashes_end :
      (fuel : ℕ) (t : S.Text)
      → ((u : S.Text)
          → P.ends_with_slash u ≡ true
          → P.text_length (P.chop_last u) < P.text_length u)
      → P.text_length t ≤ fuel
      → P.ends_with_slash (chop_slashes S P fuel t) ≡ false
  unfolding chop_slashes
  chop_slashes_end zero t shorter h = elim (Bool-cases (P.ends_with_slash t)) [
    | inl e ↦ absurd (omega (arith, shorter t e))
    | inr e ↦ e
  ]
  chop_slashes_end (suc fuel) t shorter h = elim (Bool-cases (P.ends_with_slash t)) [
    | inl e ↦ rw e (chop_slashes_end fuel (P.chop_last t) shorter (omega (arith, shorter t e)))
    | inr e ↦ rw e e
  ]

  normalize_url_usable :
      (url : S.Text)
      → ((u : S.Text)
          → P.ends_with_slash u ≡ true
          → P.text_length (P.chop_last u) < P.text_length u)
      → P.has_scheme P.default_url ≡ true
      → P.ends_with_slash P.default_url ≡ false
      → (P.has_scheme (normalize_url S P url) ≡ true)
        × (P.ends_with_slash (normalize_url S P url) ≡ false)
  unfolding normalize_url
  normalize_url_usable url shorter scheme slash =
      let t = P.trim url in
      let end = chop_slashes_end (P.text_length t) t shorter (omega arith) in ground (arith, end)

  initialize-url :
      (c : DocentClient S P) (stored : Option S.Text) (fresh : S.Text)
      → (initialize S P c stored fresh).0.server_base_url ≡ normalize_url S P c.server_base_url
  unfolding initialize normalize_server_base_url
  initialize-url c stored fresh = ground arith

  -- The client starts with a usable address, whatever the configuration holds, and each change of the
  -- address leaves it usable: it has a scheme and does not end in a slash. Assumed of the strings: to
  -- chop the last character off a text that ends in a slash makes it shorter, and the default address
  -- is usable.
  pub set_server_base_url-usable :
      (c : DocentClient S P) (stored : Option S.Text) (fresh url : S.Text)
      → ((u : S.Text)
          → P.ends_with_slash u ≡ true
          → P.text_length (P.chop_last u) < P.text_length u)
      → P.has_scheme P.default_url ≡ true
      → P.ends_with_slash P.default_url ≡ false
      → (let start = (initialize S P c stored fresh).0.server_base_url in
          let changed = (set_server_base_url S P c url).server_base_url in
          ((P.has_scheme start ≡ true) × (P.ends_with_slash start ≡ false))
          × ((P.has_scheme changed ≡ true) × (P.ends_with_slash changed ≡ false)))
  unfolding set_server_base_url normalize_server_base_url
  set_server_base_url-usable c stored fresh url shorter scheme slash =
      let changed = normalize_url_usable url shorter scheme slash in
      let start = normalize_url_usable c.server_base_url shorter scheme slash in
      (rw (initialize-url c stored fresh) start, changed)
