-- ===== src/Px/Kvdb/Endpoints.antt =====
-- The URLs that endpoints of etcd are rewritten to.
use talisman.Common.{
  String, ◌<>◌, ◌==◌, ◌≡◌, refl, ◌∙◌, ap, inl, inr, true, false, ◌||◌, eq_iff, [], ◌∷◌, arith,
  Bool-cases,
}
use talisman.Go.Results.{ok}
use talisman.Go.Text.{split}
use talisman.Go.Text.Splitting.{is_plain, lacks, split-lacks, split-append}
use talisman.Px.Kvdb.{join_tokens, kvdb_url, drop_first}

abbrev pub endpoint : String → String → String → String
endpoint scheme host port = "etcd" <> (":" <> (scheme <> (":" <> (host <> (":" <> port)))))

split-endpoint :
    (scheme host port : String)
    → is_plain scheme ≡ true
    → is_plain host ≡ true
    → is_plain port ≡ true
    → split ":" (endpoint scheme host port) ≡ "etcd" ∷ scheme ∷ host ∷ port ∷ []
unfolding lacks
split-endpoint scheme host port s h p =
    split-append ":" "etcd" _ refl
    ∙ ap (λ ts. "etcd" ∷ ts)
        (split-append ":" scheme _ s
          ∙ ap (λ ts. scheme ∷ ts)
              (split-append ":" host port h ∙ ap (λ ts. host ∷ ts) (split-lacks ":" port p)))

plain_scheme :
    (scheme : String) → (scheme == "http" || scheme == "https") ≡ true → is_plain scheme ≡ true
unfolding lacks
plain_scheme scheme s = elim (Bool-cases (scheme == "http")) [
  | inl http ↦ rw ((eq_iff scheme "http").0 http) refl
  | inr other ↦ rw ((eq_iff scheme "https").0 (ground (arith, s, other))) refl
]

-- An endpoint "etcd:", a scheme that is "http" or "https", ":", a host, ":" and a port, in which the
-- host and the port have no colon and are not empty, is rewritten to the same text without "etcd:".
pub kvdb_url-endpoint :
    (scheme host port : String)
    → (scheme == "http" || scheme == "https") ≡ true
    → is_plain host ≡ true
    → is_plain port ≡ true
    → (host == "") ≡ false
    → (port == "") ≡ false
    → kvdb_url (drop_first (split ":" (endpoint scheme host port)))
      ≡ ok ((scheme <> (":" <> host)) <> (":" <> port))
unfolding kvdb_url join_tokens
kvdb_url-endpoint scheme host port s h p some_host some_port =
    rw (split-endpoint scheme host port (plain_scheme scheme s) h p)
      (ground (arith, s, some_host, some_port, eq_iff scheme "http", eq_iff scheme "https"))
