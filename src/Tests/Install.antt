-- ===== src/Tests/Install.antt =====
-- A run of the installation on a file system with one path.
use go_overlay.Base.{
  Text, lit, ◌==◌, ==_iff, Bool, true, false, Option, none, some, if◌then◌else◌, ◌≡◌, ◌≢◌, refl,
  sym, ap, ◌∙◌, arith, inl, inr, Bool-cases, Result, ok, err,
}
use go_overlay.Install.{Entry, absent, link, other, Files, IsFiles, install_target, install_in_path}
use go_overlay.Install.Laws.{Installs, install_in_path-Installs}

-- A file system with one path of interest: what is there, and nothing elsewhere.
abbrev target_of : Entry → Result Text
target_of (link t) = ok t
target_of _ = err (lit "EINVAL")

abbrev is_there : Entry → Bool
is_there absent = false
is_there _ = true

abbrev add_link : Text → Entry → Entry × Option Text
add_link t absent = (link t, none)
add_link t e = (e, some (lit "EEXIST"))

abbrev at : Text → Entry → Entry
at p e = if p == install_target then e else absent

abbrev files : Files
files = record {
  World = Entry;
  entry = at;
  readlink = λ p w. target_of (at p w);
  lstat = λ p w. is_there (at p w);
  remove = λ p w. (if p == install_target then absent else w, none);
  symlink = λ t p w. if p == install_target then add_link t w else (w, some (lit "EACCES"));
}

ok-injective : (u t : Text) → ok u ≡ ok t → u ≡ t
ok-injective u t h = cc

add_link-none :
    (t : Text) (e : Entry) → (add_link t e).1 ≡ none → (e ≡ absent) × ((add_link t e).0 ≡ link t)
add_link-none t absent h = (refl, refl)
add_link-none t (link u) h = absurd (ground arith)
add_link-none t other h = absurd (ground arith)

add_link-some : (t x : Text) (e : Entry) → (add_link t e).1 ≡ some x → (add_link t e).0 ≡ e
add_link-some t x absent h = absurd (ground arith)
add_link-some t x (link u) h = refl
add_link-some t x other h = refl

target_of-link : (e : Entry) (t : Text) → target_of e ≡ ok t → e ≡ link t
target_of-link (link u) t h = ap link (ok-injective u t h)
target_of-link absent t h = absurd (ground arith)
target_of-link other t h = absurd (ground arith)

gone : (p : Text) (w : Entry) → at p (files.remove p w).0 ≡ absent
gone p w = elim (Bool-cases (p == install_target)) [ inl e ↦ rw e refl | inr e ↦ rw e refl ]

made :
    (t p : Text) (w : Entry)
    → (files.symlink t p w).1 ≡ none
    → (at p w ≡ absent) × (at p (files.symlink t p w).0 ≡ link t)
made t p w h = elim (Bool-cases (p == install_target)) [
  | inl e ↦ let k = rw e at h in rw e (add_link-none t w k)
  | inr e ↦ let k = rw e at h in absurd (ground arith)
]

not_made :
    (t p x : Text) (w : Entry)
    → (files.symlink t p w).1 ≡ some x
    → at p (files.symlink t p w).0 ≡ at p w
not_made t p x w h = elim (Bool-cases (p == install_target)) [
  | inl e ↦ let k = rw e at h in rw e (add_link-some t x w k)
  | inr e ↦ rw e refl
]

elsewhere :
    (t p q : Text) (w : Entry)
    → q ≢ p
    → (at q (files.remove p w).0 ≡ at q w) × (at q (files.symlink t p w).0 ≡ at q w)
elsewhere t p q w d = elim (Bool-cases (p == install_target)) [
  | inl e ↦ elim (Bool-cases (q == install_target)) [
    | inl f ↦ absurd (d ((==_iff q install_target).0 f ∙ sym ((==_iff p install_target).0 e)))
    | inr f ↦ rw (e, f) (refl, refl)
  ]
  | inr e ↦ rw e (refl, refl)
]

files-IsFiles : IsFiles files
files-IsFiles = record {
  is_link = λ p t w h. target_of-link (at p w) t h;
  is_there = λ p w h e. ground (arith, ap is_there e);
  removed = λ p w h. gone p w;
  not_removed = λ p e w h. absurd (ground arith);
  linked = made;
  not_linked = not_made;
  others = elsewhere;
}

-- An older link is replaced.
install_in_path-Installs_example :
    Installs files files-IsFiles
      (λ p. lit "/opt")
      (lit "/opt/go-overlay")
      (link (lit "/old"))
      (install_in_path files (λ p. lit "/opt") (ok (lit "/opt/go-overlay")) (link (lit "/old")))
install_in_path-Installs_example =
    install_in_path-Installs files files-IsFiles (λ p. lit "/opt") (lit "/opt/go-overlay")
      (link (lit "/old"))
