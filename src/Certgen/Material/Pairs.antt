-- ===== src/Certgen/Material/Pairs.antt =====
-- internal/certgen/certgen.go: what the library and the file system promise, and the pairs of files of a
-- certificate and its key.
use mist_ui.Certgen.{
  second, renew_before, Certificate, Library, File, ca_pem, ca_key_pem, Directory, certificate_type,
  key_type, read_pem, read_cert, write_pem, load_ca, mint, write_pair,
}
use mist_ui.Base.{
  ℕ, ◌+◌, ◌≤◌, ◌<◌, ◌≡◌, refl, sym, ap, subst, ◌∙◌, ◌≢◌, inl, inr, true, false, Option, none, some,
  arith, ltb, Bytes, bytes_eq_refl, Result, ok, Result-cases,
}

-- What a certificate made from a template says; X.509 keeps its times in seconds.
pub record IsCreated (t c : Certificate) : Type 0 where
  pub same_ca : c.is_ca ≡ t.is_ca
  pub same_names : c.dns_names ≡ t.dns_names
  pub lasts : t.not_after < c.not_after + second

-- What is encoded decodes, and a certificate says what its template says.
pub record IsLibrary (L : Library) : Type 0 where
  pub decode-encode : (t der : Bytes) → L.pem_decode (L.pem_encode t der) ≡ some (t, der)
  pub parse-marshal : (k : L.Key) (der : Bytes) → L.marshal_key k ≡ ok der → L.parse_key der ≡ ok k
  pub parse-create :
      (n : ℕ) (t p : Certificate) (key signer : L.Key) (der : Bytes)
      → L.create_certificate n t p key signer ≡ ok der
      → (c : Certificate) × (L.parse_certificate der ≡ ok c) × IsCreated t c

-- A file that has been written is there and reads back, and the other files are as they were.
pub record IsDirectory {W : Type 0} (D : Directory W) : Type 0 where
  pub read-write :
      (f : File) (b : Bytes) (w : W) → (D.write f b w).0 ≡ ok tt → D.read f (D.write f b w).1 ≡ ok b
  pub stat-write :
      (f : File) (b : Bytes) (w : W)
      → (D.write f b w).0 ≡ ok tt
      → D.stat f (D.write f b w).1 ≡ ok tt
  pub read_other :
      (f g : File) (b : Bytes) (w : W) → f ≢ g → D.read g (D.write f b w).1 ≡ D.read g w
  pub read_kept : (f g : File) (w : W) → f ≢ g → D.read g (D.remove f w) ≡ D.read g w

module _ (L : Library) (K : IsLibrary L) {W : Type 0} (D : Directory W) (I : IsDirectory D) where
  pub read_pem_block :
      (f : File) (typ der : Bytes) (w : W)
      → D.read f w ≡ ok (L.pem_encode typ der)
      → read_pem L D f typ w ≡ ok der
  unfolding read_pem
  read_pem_block f typ der w h = ground (arith, h, K.decode-encode typ der, bytes_eq_refl typ)

  -- The two blocks of a pair that has been written.
  pub write_pair_blocks :
      (f g : File) (der key_der : Bytes) (w : W)
      → g ≢ f
      → (write_pair L D f g der key_der w).0 ≡ ok tt
      → (D.read f (write_pair L D f g der key_der w).1 ≡ ok (L.pem_encode certificate_type der))
        × (D.read g (write_pair L D f g der key_der w).1 ≡ ok (L.pem_encode key_type key_der))
        × (D.stat g (write_pair L D f g der key_der w).1 ≡ ok tt)
  unfolding write_pair write_pem
  write_pair_blocks f g der key_der w ne h =
      let b = L.pem_encode certificate_type der in
      let w1 = (D.write f b w).1 in
      let c = L.pem_encode key_type key_der in
      elim (Result-cases (D.write f b w).0) [
        | inr (e, p) ↦ absurd (ground (arith, p))
        | inl (u, p) ↦
            let q : (D.write g c w1).0 ≡ ok tt = ground (arith, p, h) in
            let e : (write_pair L D f g der key_der w).1 ≡ (D.write g c w1).1 = ground (arith, p) in
            rw e (
              I.read_other g f c w1 ne ∙ I.read-write f b w (ground (arith, p)),
              I.read-write g c w1 q,
              I.stat-write g c w1 q,
            )
      ]

  pub write_pair_others :
      (f g o : File) (der key_der : Bytes) (w : W)
      → f ≢ o
      → g ≢ o
      → D.read o (write_pair L D f g der key_der w).1 ≡ D.read o w
  unfolding write_pair write_pem
  write_pair_others f g o der key_der w fo go =
      let b = L.pem_encode certificate_type der in
      let w1 = (D.write f b w).1 in
      let c = L.pem_encode key_type key_der in
      elim (Result-cases (D.write f b w).0) [
        | inr (e, p) ↦ ground (arith, p, I.read_other f o b w fo)
        | inl (u, p) ↦ ground (arith, p, I.read_other f o b w fo, I.read_other g o c w1 go)
      ]

  -- What a pair that has been made consists of.
  pub minted :
      (random : Result L.Key) (serial : Result ℕ) (t p : Certificate) (signer : Option L.Key)
      (key : L.Key) (der key_der : Bytes)
      → mint L D random serial t p signer ≡ ok (key, (der, key_der))
      → ((c : Certificate) × (L.parse_certificate der ≡ ok c) × IsCreated t c)
        × (L.parse_key key_der ≡ ok key)
  unfolding mint
  minted random serial t p signer key der key_der h = elim (Result-cases random) [
    | inr (e, q) ↦ absurd (ground (arith, q))
    | inl (k, q) ↦ elim (Result-cases serial) [
      | inr (e, r) ↦ absurd (ground (arith, q, r))
      | inl (n, r) ↦
          let by = elim signer as (λ _. L.Key) [ none ↦ k | some k2 ↦ k2 ] in
          elim (Result-cases (L.create_certificate n t p k by)) [
            | inr (e, u) ↦ absurd (ground (arith, q, r, u))
            | inl (d, u) ↦ elim (Result-cases (L.marshal_key k)) [
              | inr (e, v) ↦ absurd (ground (arith, q, r, u, v))
              | inl (kd, v) ↦
                  let ek : k ≡ key = ground (arith, q, r, u, v, h) in
                  let ed : d ≡ der = ground (arith, q, r, u, v, h) in
                  let ekd : kd ≡ key_der = ground (arith, q, r, u, v, h) in
                  (
                    subst (λ b. (c : Certificate) × (L.parse_certificate b ≡ ok c) × IsCreated t c)
                        ed (K.parse-create n t p k by d u),
                    ap L.parse_key (sym ekd) ∙ K.parse-marshal k kd v ∙ ap ok ek,
                  )
            ]
          ]
    ]
  ]

  pub load_ca_found :
      (now : ℕ) (w : W) (cert : Certificate) (key : L.Key) (der key_der : Bytes)
      → D.read ca_pem w ≡ ok (L.pem_encode certificate_type der)
      → D.read ca_key_pem w ≡ ok (L.pem_encode key_type key_der)
      → L.parse_certificate der ≡ ok cert
      → L.parse_key key_der ≡ ok key
      → cert.is_ca ≡ true
      → now + renew_before ≤ cert.not_after
      → load_ca L D now w ≡ ok (cert, key)
  unfolding load_ca read_cert
  load_ca_found now w cert key der key_der f g p q a lasts =
      let fresh : ltb cert.not_after (now + renew_before) ≡ false = ground (arith, lasts) in
      ground (
        arith,
        read_pem_block ca_pem certificate_type der w f,
        read_pem_block ca_key_pem key_type key_der w g,
        p,
        q,
        a,
        fresh,
      )

  pub load_ca_same :
      (now : ℕ) (v w : W)
      → D.read ca_pem v ≡ D.read ca_pem w
      → D.read ca_key_pem v ≡ D.read ca_key_pem w
      → load_ca L D now v ≡ load_ca L D now w
  unfolding load_ca read_cert read_pem
  load_ca_same now v w f g = rw (f, g) refl
