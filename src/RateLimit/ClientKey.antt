-- ===== src/RateLimit/ClientKey.antt =====
-- What clientKey takes from the X-Forwarded-For header.
use eaim.Base.{[], ◌∷◌, ◌++◌, Bool, true, false, Bool-cases, ◌≡◌, refl, sym, ◌∙◌, inl, inr, arith}
use eaim.Base.Text.{Text, is_empty}
use eaim.RateLimit.Middleware.{Request, has_comma, last_part, direct_key, client_key}

has_comma-append : (s t : Text) → has_comma (s ++ b',' ∷ t) ≡ true
unfolding has_comma
has_comma-append [] t = refl
has_comma-append (c ∷ s) t = ground (arith, has_comma-append s t)

last_part-append : (s t : Text) → has_comma t ≡ false → last_part (s ++ b',' ∷ t) ≡ t
unfolding last_part
last_part-append [] t h = rw (last_part, h) refl
last_part-append (c ∷ s) t h = rw (last_part, has_comma-append s t) (last_part-append s t h)

-- Behind a peer that is not the trusted proxy, the header has no influence on the key.
pub client_key-untrusted :
    (trim_space : Text → Text) (trusted : Text → Bool) (r : Request) (header : Text)
    → trusted r.remote_addr ≡ false
    → client_key trim_space trusted (record r { forwarded_for = header })
      ≡ client_key trim_space trusted r
unfolding client_key direct_key
client_key-untrusted trim_space trusted r header h =
    direct (record r { forwarded_for = header }) h ∙ sym (direct r h)
  where
    direct :
        (x : Request)
        → trusted x.remote_addr ≡ false
        → client_key trim_space trusted x ≡ direct_key x
    direct x h = elim (Bool-cases (is_empty x.forwarded_for)) [
      | inl e ↦ rw (client_key, e) refl
      | inr e ↦ rw (client_key, e, h) refl
    ]

-- Behind the trusted proxy the key is the address that the proxy appends to the header, whatever the
-- caller put before it.
pub client_key-appended :
    (trim_space : Text → Text) (trusted : Text → Bool) (r : Request) (claimed observed : Text)
    → trusted r.remote_addr ≡ true
    → has_comma observed ≡ false
    → is_empty (trim_space observed) ≡ false
    → client_key trim_space trusted (record r { forwarded_for = claimed ++ b',' ∷ observed })
      ≡ trim_space observed
unfolding client_key
client_key-appended trim_space trusted r claimed observed t c e =
    rw (client_key, joined claimed, t, last_part-append claimed observed c, e) refl
  where
    joined : (s : Text) → is_empty (s ++ b',' ∷ observed) ≡ false
    joined [] = unfold is_empty in refl
    joined (x ∷ s) = unfold is_empty in refl
