-- ===== src/HttpApi/Tunnel/Imports.antt =====
-- internal/httpapi/api.go, vpnImport and vpnConfig: what an import stores.
use mist_ui.Store.Database.{Bolt, IsLawful, bucket_config}
use mist_ui.Store
use mist_ui.Store.{put_config}
use mist_ui.Store.Config.{config-put_config}
use mist_ui.Vpn.Config.{Net, Peer, Config, parse_config, summary, is_empty}
use mist_ui.Vpn.Config.Secrets.{rekey, summary-rekey}
use mist_ui.HttpApi.Tunnel.{
  Host, Tunnel, vpn_summary_key, pin_endpoints, install, vpn_import, vpn_config,
}
use mist_ui.HttpApi.Server.{Server, Response, internal, http_error, write_json, flag, raw}
use mist_ui.Base.{
  ◌≡◌, refl, sym, ap, ◌∙◌, inl, inr, Bool, true, false, Option, none, some, [], ◌∷◌, arith, Bytes,
  Bool-cases, Result, ok, err, Result-cases,
}

-- Whether a result is a value.
pub is_ok : {A : Type 0} → Result A → Bool
is_ok (ok a) = true
is_ok (err e) = false

module _ (B : Bolt) (N : Net) (H : Host) {W : Type 0} (T : Tunnel W) where
  -- What a successful import has gone through.
  pub record IsInstalled (cfg : Config) (s t : Server B.State W) : Type 0 where
    pub json : Bytes
    pub encoded : H.marshal (summary N cfg) ≡ ok json
    pub stored : put_config B s.db vpn_summary_key json ≡ ok t.db

  install_db :
      (cfg : Config) (s : Server B.State W) (u : Unit {0}) (json : Bytes) (d : B.State)
      → (T.import_config (pin_endpoints N H cfg) s.world).0 ≡ ok u
      → H.marshal (summary N cfg) ≡ ok json
      → put_config B s.db vpn_summary_key json ≡ ok d
      → (install B N H T cfg s).1.db ≡ d
  unfolding install
  install_db cfg s u json d p q r = ground (arith, p, q, r)

  install-IsInstalled :
      (cfg : Config) (s : Server B.State W)
      → (install B N H T cfg s).0.status ≡ 200
      → IsInstalled cfg s (install B N H T cfg s).1
  unfolding install
  install-IsInstalled cfg s h =
      elim (Result-cases (T.import_config (pin_endpoints N H cfg) s.world).0) [
        | inr (e, p) ↦ absurd (ground (arith, p))
        | inl (u, p) ↦ elim (Result-cases (H.marshal (summary N cfg))) [
          | inr (e, q) ↦ absurd (ground (arith, p, q))
          | inl (json, q) ↦ elim (Result-cases (put_config B s.db vpn_summary_key json)) [
            | inr (e, r) ↦ absurd (ground (arith, p, q, r))
            | inl (d, r) ↦ record {
              json = json;
              encoded = q;
              stored = r ∙ ap ok (sym (install_db cfg s u json d p q r));
            }
          ]
        ]
      ]

  vpn_import-install :
      (text : Bytes) (cfg : Config) (s : Server B.State W)
      → parse_config N text ≡ ok cfg
      → is_empty text ≡ false
      → vpn_import B N H T (some text) s ≡ install B N H T cfg s
  unfolding vpn_import
  vpn_import-install text cfg s h k = ground (arith, h, k)

  vpn_import_parsed :
      (body : Option Bytes) (s : Server B.State W)
      → (vpn_import B N H T body s).0.status ≡ 200
      → (text : Bytes) × (cfg : Config) × (body ≡ some text)
        × (parse_config N text ≡ ok cfg)
        × (vpn_import B N H T body s ≡ install B N H T cfg s)
  unfolding vpn_import
  vpn_import_parsed none s h = absurd (ground arith)
  vpn_import_parsed (some text) s h = elim (Bool-cases (is_empty text)) [
    | inl p ↦ absurd (ground (arith, p))
    | inr p ↦ elim (Result-cases (parse_config N text)) [
      | inr (e, q) ↦ absurd (ground (arith, p, q))
      | inl (cfg, q) ↦ (text, cfg, refl, q, ground (arith, p, q))
    ]
  ]

  vpn_config_found :
      (s : Server B.State W) (json : Bytes)
      → B.view s.db ≡ ok tt
      → B.get s.db bucket_config vpn_summary_key ≡ some json
      → vpn_config B N H T s
        ≡ (write_json 200 (("configured", flag true) ∷ ("summary", raw json) ∷ []), s)
  unfolding vpn_config Store.config
  vpn_config_found s json h k = ground (arith, h, k)

  -- After an import that is answered with 200, and in an open database, the endpoint of the
  -- configuration answers with the encoded summary of the configuration that the text parses to.
  pub vpn_config-vpn_import :
      (L : IsLawful B) (body : Option Bytes) (s : Server B.State W)
      → ((d : B.State) → B.view d ≡ ok tt)
      → (vpn_import B N H T body s).0.status ≡ 200
      → (text : Bytes) × (cfg : Config) × (json : Bytes) × (body ≡ some text)
        × (parse_config N text ≡ ok cfg)
        × (H.marshal (summary N cfg) ≡ ok json)
        × ((vpn_config B N H T (vpn_import B N H T body s).1).0
            ≡ write_json 200 (("configured", flag true) ∷ ("summary", raw json) ∷ []))
  vpn_config-vpn_import L body s is_open h =
      let (text, cfg, b, p, e) = vpn_import_parsed body s h in
      let i = install-IsInstalled cfg s (sym (ap (λ r. r.0.status) e) ∙ h) in
      let t = (install B N H T cfg s).1 in
      let k = config-put_config B L s.db t.db vpn_summary_key i.json i.stored in
      (
        text,
        cfg,
        i.json,
        b,
        p,
        i.encoded,
        ap (λ r. (vpn_config B N H T r.1).0) e
            ∙ ap (λ r. r.0) (vpn_config_found t i.json (is_open t.db) k),
      )

  -- What an installation answers and leaves in the database.
  installed : Result (Unit {0}) → Result Bytes → B.State → Response × B.State
  installed (err e) m d = (http_error "import failed" 502, d)
  installed (ok u) (err e) d = (internal, d)
  installed (ok u) (ok json) d = elim (put_config B d vpn_summary_key json) [
    | err e ↦ (internal, d)
    | ok d2 ↦ (write_json 200 (("imported", flag true) ∷ ("summary", raw json) ∷ []), d2)
  ]

  install-installed :
      (cfg : Config) (s : Server B.State W)
      → ((install B N H T cfg s).0, (install B N H T cfg s).1.db)
        ≡ installed
            (T.import_config (pin_endpoints N H cfg) s.world).0
            (H.marshal (summary N cfg))
            s.db
  unfolding install installed
  install-installed cfg s =
      elim (Result-cases (T.import_config (pin_endpoints N H cfg) s.world).0) [
        | inr (e, p) ↦ ground (arith, p)
        | inl (u, p) ↦ elim (Result-cases (H.marshal (summary N cfg))) [
          | inr (e, q) ↦ ground (arith, p, q)
          | inl (json, q) ↦ elim (Result-cases (put_config B s.db vpn_summary_key json)) [
            | inr (e, r) ↦ ground (arith, p, q, r)
            | inl (d, r) ↦ ground (arith, p, q, r)
          ]
        ]
      ]

  installed_same :
      (o o' : Result (Unit {0})) (m : Result Bytes) (d : B.State)
      → is_ok o ≡ is_ok o'
      → installed o m d ≡ installed o' m d
  unfolding installed is_ok
  installed_same (ok u) (ok u') m d h = refl
  installed_same (err e) (err e') m d h = refl
  installed_same (ok u) (err e') m d h = absurd (ground arith)
  installed_same (err e) (ok u') m d h = absurd (ground arith)

  -- Of two texts that parse, to configurations which differ in their private, public and preshared keys
  -- at most, and whose commands on the router both succeed or both fail, with whatever errors, the
  -- imports answer the same and leave the same database: neither holds a key, nor an error of
  -- the router, which may quote one.
  pub vpn_import_rekeyed :
      (a b : Bytes) (cfg : Config) (k : Bytes) (f g : Peer → Bytes) (s : Server B.State W)
      → is_empty a ≡ false
      → is_empty b ≡ false
      → parse_config N a ≡ ok cfg
      → parse_config N b ≡ ok (rekey k f g cfg)
      → is_ok (T.import_config (pin_endpoints N H cfg) s.world).0
        ≡ is_ok (T.import_config (pin_endpoints N H (rekey k f g cfg)) s.world).0
      → ((vpn_import B N H T (some a) s).0 ≡ (vpn_import B N H T (some b) s).0)
        × ((vpn_import B N H T (some a) s).1.db ≡ (vpn_import B N H T (some b) s).1.db)
  vpn_import_rekeyed a b cfg k f g s ea eb pa pb o =
      let other = rekey k f g cfg in
      let same : installed (T.import_config (pin_endpoints N H cfg) s.world).0
            (H.marshal (summary N cfg)) s.db
          ≡ installed (T.import_config (pin_endpoints N H other) s.world).0
              (H.marshal (summary N other)) s.db =
        rw (summary-rekey N k f g cfg) (
          installed_same (T.import_config (pin_endpoints N H cfg) s.world).0
            (T.import_config (pin_endpoints N H other) s.world).0 (H.marshal (summary N cfg)) s.db
            o) in
      let both = install-installed cfg s ∙ same ∙ sym (install-installed other s) in
      rw (vpn_import-install a cfg s pa ea, vpn_import-install b other s pb eb)
        (ap (λ r. r.0) both, ap (λ r. r.1) both)
