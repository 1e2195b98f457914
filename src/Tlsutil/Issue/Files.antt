-- ===== src/Tlsutil/Issue/Files.antt =====
-- What `IssueClientCert` leaves in the file system.
use proxmox_eventbus.Prelude.{
  ℕ, ◌≡◌, ◌≢◌, refl, sym, ap, ◌∙◌, subst, Bool, false, List, [], ◌∷◌, Option, none, some, Bytes,
  codes, bytes_eq, bytes_beq, bytes_beq_iff, ◌==◌, Bool-cases, inl, inr, arith,
}
use proxmox_eventbus.Prelude.GoMap.{set_self, set_ne}
use proxmox_eventbus.Prelude.Result.{Result, ok, err}
use proxmox_eventbus.Filepath.{join_path}
use proxmox_eventbus.Filepath.Names.{IsFileName, join_path-ne}
use proxmox_eventbus.Tlsutil.Issue.{
  Crypto, IssueClientCertOpts, ClientCertBundle, IssueError, FileState, FileSystem, FileOp,
  mode_behind, done, bundle_ops, run_ops, write_bundle, issue_client_cert_pem, issue_client_cert,
}

abbrev pub ca_path : Bytes → Bytes
ca_path dir = join_path dir (codes "ca.pem")

abbrev pub cert_path : Bytes → Bytes
cert_path dir = join_path dir (codes "client.pem")

abbrev pub key_path : Bytes → Bytes
key_path dir = join_path dir (codes "client.key")

-- a file that is written, with the mode that it had, or this one if it is new
abbrev pub written : FileSystem → Bytes → Bytes → ℕ → Option FileState
written fs path content mode =
    some (record { content = content; mode = mode_behind (fs path) mode })

-- The bundle lies in the directory, and nothing else has changed.
abbrev pub HasBundle : FileSystem → FileSystem → Bytes → ClientCertBundle → Type 0
HasBundle fs fs' dir b =
    (fs' (ca_path dir) ≡ written fs (ca_path dir) b.ca_pem 0o644)
    × (fs' (cert_path dir) ≡ written fs (cert_path dir) b.cert_pem 0o644)
    × (fs' (key_path dir) ≡ written fs (key_path dir) b.key_pem 0o600)
    × ((path : Bytes)
        → path ≢ ca_path dir
        → path ≢ cert_path dir
        → path ≢ key_path dir
        → fs' path ≡ fs path)

done_all : List FileOp → FileSystem → FileSystem
done_all [] fs = fs
done_all (op ∷ ops) fs = done_all ops (done op fs)

ca-IsFileName : IsFileName (codes "ca.pem")
unfolding bytes_beq
ca-IsFileName = (omega arith, refl, refl, refl)

cert-IsFileName : IsFileName (codes "client.pem")
unfolding bytes_beq
cert-IsFileName = (omega arith, refl, refl, refl)

key-IsFileName : IsFileName (codes "client.key")
unfolding bytes_beq
key-IsFileName = (omega arith, refl, refl, refl)

ne-of_beq : (s t : Bytes) → bytes_beq s t ≡ false → s ≢ t
ne-of_beq s t h e = cc ((bytes_beq_iff s t).1 e, h)

module _ (dir : Bytes) (given : dir ≢ []) where
  cert-ne-ca : cert_path dir ≢ ca_path dir
  unfolding bytes_beq
  cert-ne-ca = join_path-ne dir _ _ given cert-IsFileName ca-IsFileName (ne-of_beq _ _ refl)

  key-ne-ca : key_path dir ≢ ca_path dir
  unfolding bytes_beq
  key-ne-ca = join_path-ne dir _ _ given key-IsFileName ca-IsFileName (ne-of_beq _ _ refl)

  key-ne-cert : key_path dir ≢ cert_path dir
  unfolding bytes_beq
  key-ne-cert = join_path-ne dir _ _ given key-IsFileName cert-IsFileName (ne-of_beq _ _ refl)

done_self :
    (fs : FileSystem) (path content : Bytes) (mode : ℕ)
    → done (FileOp.write path content mode) fs path ≡ written fs path content mode
unfolding done
done_self fs path content mode = set_self fs path _

done_ne :
    (fs : FileSystem) (path content other : Bytes) (mode : ℕ)
    → other ≢ path
    → done (FileOp.write path content mode) fs other ≡ fs other
unfolding done
done_ne fs path content other mode h = set_ne fs path other _ h

written-eq :
    (fs fs' : FileSystem) (path content : Bytes) (mode : ℕ)
    → fs' path ≡ fs path
    → written fs' path content mode ≡ written fs path content mode
written-eq fs fs' path content mode e =
    ap (λ f. some (record { content = content; mode = mode_behind f mode })) e

done_all-HasBundle :
    (fs : FileSystem) (dir : Bytes) (b : ClientCertBundle)
    → dir ≢ []
    → HasBundle fs (done_all (bundle_ops dir b) fs) dir b
unfolding done_all done bundle_ops
done_all-HasBundle fs dir b h =
    let p = ca_path dir in
    let q = cert_path dir in
    let r = key_path dir in
    let qp = cert-ne-ca dir h in
    let rp = key-ne-ca dir h in
    let rq = key-ne-cert dir h in
    let fs1 = done (FileOp.write p b.ca_pem 0o644) fs in
    let fs2 = done (FileOp.write q b.cert_pem 0o644) fs1 in
    (
      done_ne fs2 r b.key_pem p 0o600 (λ e. rp (sym e))
          ∙ done_ne fs1 q b.cert_pem p 0o644 (λ e. qp (sym e))
          ∙ done_self fs p b.ca_pem 0o644,
      done_ne fs2 r b.key_pem q 0o600 (λ e. rq (sym e))
          ∙ done_self fs1 q b.cert_pem 0o644
          ∙ written-eq fs fs1 q b.cert_pem 0o644 (done_ne fs p b.ca_pem q 0o644 qp),
      done_self fs2 r b.key_pem 0o600
          ∙ written-eq fs fs2 r b.key_pem 0o600
              (done_ne fs1 q b.cert_pem r 0o644 rq ∙ done_ne fs p b.ca_pem r 0o644 rp),
      λ path np nq nr.
          done_ne fs2 r b.key_pem path 0o600 nr
          ∙ done_ne fs1 q b.cert_pem path 0o644 nq
          ∙ done_ne fs p b.ca_pem path 0o644 np,
    )

module _ (fails : FileOp → Bool) (broken : FileOp → FileSystem → FileSystem) where
  run_ops-done :
      (ops : List FileOp) (fs : FileSystem)
      → (run_ops fails broken ops fs).0 ≡ none
      → (run_ops fails broken ops fs).1 ≡ done_all ops fs
  unfolding run_ops done_all
  run_ops-done [] fs h = refl
  run_ops-done (op ∷ ops) fs h = elim (Bool-cases (fails op)) [
    | inl e ↦ cc (rw (e, run_ops) at h)
    | inr e ↦ rw (e, run_ops) (run_ops-done ops (done op fs) (rw (e, run_ops) at h))
  ]

  write_bundle_files :
      (dir : Bytes) (r : Result IssueError ClientCertBundle) (fs : FileSystem)
      → dir ≢ []
      → (write_bundle fails broken dir r fs).0 ≡ none
      → (b : ClientCertBundle) × (r ≡ ok b)
        × HasBundle fs ((write_bundle fails broken dir r fs).1) dir b
  unfolding write_bundle
  write_bundle_files dir (err e) fs given h = cc h
  write_bundle_files dir (ok b) fs given h = (
    b,
    refl,
    subst (λ fs'. HasBundle fs fs' dir b) (sym (run_ops-done (bundle_ops dir b) fs h))
        (done_all-HasBundle fs dir b given),
  )

  -- Where `IssueClientCert` returns no error, `IssueClientCertPEM` returned a bundle, and three
  -- files of the directory, of three different paths, hold the certificate of the CA, the
  -- certificate and the private key; a file that was new has the mode 0644, the one of the key
  -- 0600, and one that was there keeps its mode. Every other file is as it was.
  pub issue_client_cert_files :
      (x : Crypto) (opts : IssueClientCertOpts) (disk disk' : Bytes → Option Bytes)
      (fs : FileSystem)
      → (issue_client_cert fails broken x opts disk disk' fs).0 ≡ none
      → (b : ClientCertBundle) × (issue_client_cert_pem x opts disk disk' ≡ ok b)
        × HasBundle fs ((issue_client_cert fails broken x opts disk disk' fs).1) opts.out_dir b
  unfolding issue_client_cert
  issue_client_cert_files x opts disk disk' fs h = elim (Bool-cases (opts.out_dir == [])) [
    | inl e ↦ absurd (cc (rw e at h))
    | inr e ↦ rw e (
        write_bundle_files opts.out_dir (issue_client_cert_pem x opts disk disk') fs
          (ne-of_beq opts.out_dir [] e) (rw e at h))
  ]
