-- ===== src/Certgen/Material.antt =====
-- internal/certgen/certgen.go, EnsureMaterial: the files after a call that returns no error.
pub mod Pairs
use mist_ui.Certgen.Material.Pairs.{IsCreated}
use mist_ui.Certgen.{
  second, day, hour, ca_validity, leaf_validity, Certificate, Library, File, Directory, key_type,
  read_pem, write_pem, load_ca, leaf_usable, Random, ensure_material,
}
use mist_ui.Base.{
  ℕ, zero, suc, ◌-◌, ◌*◌, ◌/◌, ◌%◌, String, ◌≡◌, refl, ◌≢◌, ◌↔◌, ◌⊎◌, Bool, true, false, not, ◌&&◌,
  ◌||◌, Option, List, ◌++◌, map, if◌then◌else◌, leb, nat_eq, Bytes, str, bytes_eq, bytes_eq_iff,
  bytes_eq_refl, ok, err, ◌>>=◌, ◌>>◌, result_or, Option-cases, length, get_or, take, drop,
  length-append, take-append, drop-append, drop_past, get_or_past, take_part,
}

module _ (L : Library) {W : Type 0} (D : Directory W) where
  -- Material that serves: a CA that loads and a leaf for the host, neither of them near its end; a further
  -- call at that time leaves all files alone.
  pub record IsServable (now : ℕ) (host : Bytes) (w : W) : Type 0 where
    pub ca : Certificate
    pub key : L.Key
    pub loads : load_ca L D now w ≡ ok (ca, key)
    pub leaf : leaf_usable L D now host w ≡ true
    pub again :
        (random : Random L D)
        → D.mkdir_all w ≡ (ok tt, w)
        → ensure_material L D random now host w ≡ (ok tt, w)
