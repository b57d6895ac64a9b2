-- ===== src/Auth/ServiceAccount/Jwt.antt =====
-- What an assertion says: its three parts decode to the header, the claims and the signature.
use duckdb_google_calendar.Common.{
  ℕ, [], ◌∷◌, ◌++◌, append_assoc, true, Bytes, codes, IsBytes, all_bytes-IsBytes, some, map, ◌≡◌,
  refl, ◌∙◌, string_eq, nat_eq, inl, inr,
}
use duckdb_google_calendar.Common.Int.{ℤ, pos, ◌+ℤ◌}
use duckdb_google_calendar.Common.Except.{
  Ensures, attempt, bind-Ensures, bind-Ensures_any, observe, pure, kept-Ensures, attempt-Ensures,
  ok,
}
use duckdb_google_calendar.Json.{JsonLib, IsLawful}
use duckdb_google_calendar.Json.Laws.{put-Sets}
use duckdb_google_calendar.Util.Encoding.{base64url_encode}
use duckdb_google_calendar.Util.Encoding.Chars.{encode-Lacks}
use duckdb_google_calendar.Util.Encoding.RoundTrip.{base64url_decode, decode-encode}
use duckdb_google_calendar.Util.Encoding.Pem.{normalize_pem_key}
use duckdb_google_calendar.Util.Query.Parse.{split, split-append, split-Lacks}
use duckdb_google_calendar.Auth.ServiceAccount.{
  Openssl, ServiceAccount, jwt_header, token_endpoint, token_ttl, claim_set, sign, create_jwt,
}

decode_parts :
    (claims signature : Bytes)
    → IsBytes claims
    → IsBytes signature
    → map base64url_decode (
        split b'.' (
          (base64url_encode jwt_header ++ (b'.' ∷ base64url_encode claims))
          ++ (b'.' ∷ base64url_encode signature)))
      ≡ some jwt_header ∷ some claims ∷ some signature ∷ []
decode_parts claims signature hc hs =
    rw
      (
        append_assoc (base64url_encode jwt_header) (b'.' ∷ base64url_encode claims)
            (b'.' ∷ base64url_encode signature),
        split-append b'.' (base64url_encode jwt_header)
            (base64url_encode claims ++ (b'.' ∷ base64url_encode signature))
            (encode-Lacks jwt_header),
        split-append b'.' (base64url_encode claims) (base64url_encode signature)
            (encode-Lacks claims),
        split-Lacks b'.' (base64url_encode signature) (encode-Lacks signature),
        decode-encode jwt_header (all_bytes-IsBytes jwt_header refl),
        decode-encode claims hc,
        decode-encode signature hs,
      )
      refl

module _ (J : JsonLib) where
  -- The claims of a service account at a time.
  abbrev pub Claims : Bytes → ℤ → J.Json → Type 0
  Claims email now claims =
      (J.is_object claims ≡ true)
      × (J.member claims "iss" ≡ some (J.from_string email))
      × (J.member claims "scope"
          ≡ some (J.from_string (codes "https://www.googleapis.com/auth/calendar")))
      × (J.member claims "aud" ≡ some (J.from_string (codes "https://oauth2.googleapis.com/token")))
      × (J.member claims "iat" ≡ some (J.from_int now))
      × (J.member claims "exp" ≡ some (J.from_int (now +ℤ pos 1800)))

  module _ {W : Type 0} (ssl : Openssl W) (account : ServiceAccount) where
    -- An assertion of the account: the three parts between its dots decode to the header, the claims
    -- at some time, and a signature of the first two parts by the normalised key.
    abbrev pub Assertion : Bytes → Type 0
    Assertion jwt =
        (claims : J.Json) × (now : ℤ) × (signature : Bytes) × (w : W) × (map base64url_decode
            (split b'.' jwt)
          ≡ some (codes "{\"alg\":\"RS256\",\"typ\":\"JWT\"}")
            ∷ some (J.dump claims)
            ∷ some signature
            ∷ [])
        × Claims account.email now claims
        × ((sign ssl (normalize_pem_key account.private_key)
              (base64url_encode jwt_header ++ (b'.' ∷ base64url_encode (J.dump claims))) w).0
            ≡ ok signature)

  module _ (L : IsLawful J) {W : Type 0} where
    claim_set-Claims :
        (email : Bytes) (now : ℤ) (w : W) → Ensures (Claims email now) (claim_set J email now w)
    unfolding claim_set
    claim_set-Claims email now w =
        let (c1, e1, o1, m1) =
          put-Sets J L J.null "iss" (J.from_string email) (inr L.null_is_null) in
        let (c2, e2, o2, m2) =
          put-Sets J L c1 "scope" (J.from_string (codes "https://www.googleapis.com/auth/calendar"))
            (inl o1) in
        let (c3, e3, o3, m3) = put-Sets J L c2 "aud" (J.from_string token_endpoint) (inl o2) in
        let (c4, e4, o4, m4) = put-Sets J L c3 "iat" (J.from_int now) (inl o3) in
        let (c5, e5, o5, m5) = put-Sets J L c4 "exp" (J.from_int (now +ℤ token_ttl)) (inl o4) in
        rw (e1, e2, e3, e4, e5)
          (
            o5,
            m5 "iss" ∙ m4 "iss" ∙ m3 "iss" ∙ m2 "iss" ∙ m1 "iss",
            m5 "scope" ∙ m4 "scope" ∙ m3 "scope" ∙ m2 "scope",
            m5 "aud" ∙ m4 "aud" ∙ m3 "aud",
            m5 "iat" ∙ m4 "iat",
            m5 "exp",
          )

    module _ (ssl : Openssl W) (time : W → ℤ × W) where
      -- What OpenSSL signs with is a text of bytes.
      abbrev pub SignsBytes : Type 0
      SignsBytes =
          (c : ssl.Context) (n : ℕ) (w : W) (s : Bytes)
          → (ssl.digest_sign_final c n w).0 ≡ some s
          → IsBytes s

      sign-IsBytes :
          (pem sign_input : Bytes) (w : W)
          → SignsBytes
          → Ensures IsBytes (sign ssl pem sign_input w)
      unfolding sign
      sign-IsBytes pem sign_input w signs =
          bind-Ensures_any IsBytes _ (attempt (ssl.new_mem_buf pem) _) w λ bio w1.
            bind-Ensures_any IsBytes _ (attempt (ssl.read_private_key bio) _) w1 λ key w2.
              bind-Ensures_any IsBytes _ (attempt (ssl.new_context) _) w2 λ fresh w3.
                bind-Ensures_any IsBytes _ (attempt (ssl.digest_sign_init fresh key) _) w3
                  λ ready w4.
                    bind-Ensures_any IsBytes _ (attempt (ssl.digest_sign_update ready sign_input) _)
                      w4
                      λ fed w5.
                        bind-Ensures_any IsBytes _ (attempt (ssl.digest_sign_length fed) _) w5
                          λ sig_len w6.
                            attempt-Ensures IsBytes (ssl.digest_sign_final fed sig_len) _ w6
                              (signs fed sig_len w6)

      -- If the texts of JSON objects and the signatures are bytes, then an assertion that a
      -- service account makes has three parts between its dots, which decode to the header, the
      -- claims, and a signature of the first two parts by the normalised key; the claims name the
      -- account, the scope and the endpoint, and they hold from some time on for 1800 seconds.
      pub create_jwt-Assertion :
          (account : ServiceAccount) (w : W)
          → ((j : J.Json) → J.is_object j ≡ true → IsBytes (J.dump j))
          → SignsBytes
          → Ensures (Assertion ssl account) (create_jwt J ssl time account w)
      unfolding create_jwt
      create_jwt-Assertion account w dumps signs =
          bind-Ensures_any (Assertion ssl account) _ (observe time) w λ now w1.
            bind-Ensures (Assertion ssl account) _ (Claims account.email now)
              (claim_set J account.email now) w1 (claim_set-Claims account.email now w1)
              λ claims w2 holds.
                let input =
                  base64url_encode jwt_header ++ (b'.' ∷ base64url_encode (J.dump claims)) in
                let signing = sign ssl (normalize_pem_key account.private_key) input in
                bind-Ensures (Assertion ssl account)
                  (λ signature. pure (input ++ (b'.' ∷ base64url_encode signature)))
                  (λ signature. IsBytes signature × ((signing w2).0 ≡ ok signature)) signing w2
                  (kept-Ensures IsBytes (signing w2) (sign-IsBytes _ input w2 signs))
                  λ signature w3 (bytes, signed). (
                    claims,
                    now,
                    signature,
                    w2,
                    decode_parts (J.dump claims) signature (dumps claims holds.0) bytes,
                    holds,
                    signed,
                  )
