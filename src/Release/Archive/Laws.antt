-- ===== src/Release/Archive/Laws.antt =====
-- What an archive that is accepted holds.
use hermes_link_server.Prelude.{
  ℕ, Text, text, after_prefix, after_prefix_sound, contains, keep, Bool, true, false, not, Option,
  none, some, List, [], ◌∷◌, ◌++◌, ◌≡◌, inl, inr, refl, sym, ap, ◌∙◌, All, All-append, Bool-cases,
  if◌then◌else◌,
}
use mathlib.Core.List.{append-nil, append_assoc}
use hermes_link_server.Prelude.Words.{Distinct, Distinct-snoc}
use hermes_link_server.Json.{Json, null, str, int, arr, obj, pos, negsuc, Fields, get_or}
use hermes_link_server.Attachments.{Bytes}
use hermes_link_server.Release.Verdict.{accepted, both, both_required, accepted_injective}
use hermes_link_server.Release.Patterns.{is_sha256}
use hermes_link_server.Release.Archive.{
  Member, is_unsafe, is_regular, is_entry, names_of, archive_members, find_file, file_content,
  read_member, digest_of, size_of, demand, descriptor_digest, only,
}

pub demand-some {ℓ} :
    {A : Type ℓ} (o : Option A) (message : Text) (a : A)
    → demand o message ≡ accepted a
    → o ≡ some a
unfolding demand
demand-some none message a h = cc
demand-some (some b) message a h = cc

if_some {ℓ} : {A : Type ℓ} (b : Bool) (x d : A) → (if b then some x else none) ≡ some d → x ≡ d
if_some true x d h = cc
if_some false x d h = cc

digest_form :
    (s : Text) (o : Option Text) (d : Text)
    → after_prefix (text "sha256:") s ≡ o
    → (elim o [ none ↦ none | some digest ↦ if is_sha256 digest then some digest else none ])
      ≡ some d
    → s ≡ text "sha256:" ++ d
digest_form s none d e h = cc
digest_form s (some r) d e h =
    after_prefix_sound (text "sha256:") s r e
    ∙ ap (λ t. text "sha256:" ++ t) (if_some (is_sha256 r) r d h)

digest_of-some : (v : Json) (d : Text) → digest_of v ≡ some d → v ≡ str (text "sha256:" ++ d)
unfolding digest_of
digest_of-some (str s) d h = ap str (digest_form s _ d refl h)
digest_of-some Json.null d h = cc
digest_of-some (Json.bool b) d h = cc
digest_of-some (int n) d h = cc
digest_of-some (Json.float f) d h = cc
digest_of-some (arr vs) d h = cc
digest_of-some (obj fs) d h = cc

size_of-some : (v : Json) (n : ℕ) → size_of v ≡ some n → v ≡ int (pos n)
unfolding size_of
size_of-some (int (pos m)) n h = cc
size_of-some (int (negsuc m)) n h = cc
size_of-some Json.null n h = cc
size_of-some (Json.bool b) n h = cc
size_of-some (str s) n h = cc
size_of-some (Json.float f) n h = cc
size_of-some (arr vs) n h = cc
size_of-some (obj fs) n h = cc

-- A descriptor with its digest and its size.
pub record IsDescriptor (descriptor : Json) (digest : Text) (size : ℕ) : Type 0 where
  pub fields : Fields
  pub is_object : descriptor ≡ obj fields
  pub names_digest : get_or "digest" null fields ≡ str (text "sha256:" ++ digest)
  pub has_size : get_or "size" null fields ≡ int (pos size)

pub descriptor_digest-IsDescriptor :
    (v : Json) (context digest : Text) (size : ℕ)
    → descriptor_digest v context ≡ accepted (digest, size)
    → IsDescriptor v digest size
unfolding descriptor_digest
descriptor_digest-IsDescriptor (obj fs) context digest size h =
    both (demand (digest_of (get_or "digest" null fs)) _) _ h λ d e1 h1.
      both (demand (size_of (get_or "size" null fs)) _) _ h1 λ n e2 h2.
        let same = accepted_injective h2 in
        record {
          fields = fs;
          is_object = refl;
          names_digest =
              digest_of-some _ d (demand-some _ _ d e1)
              ∙ ap (λ p. str (text "sha256:" ++ p.0)) same;
          has_size = size_of-some _ n (demand-some _ _ n e2) ∙ ap (λ p. int (pos (p.1))) same;
        }
descriptor_digest-IsDescriptor Json.null context digest size h = cc
descriptor_digest-IsDescriptor (Json.bool b) context digest size h = cc
descriptor_digest-IsDescriptor (int n) context digest size h = cc
descriptor_digest-IsDescriptor (Json.float f) context digest size h = cc
descriptor_digest-IsDescriptor (str s) context digest size h = cc
descriptor_digest-IsDescriptor (arr vs) context digest size h = cc

-- A regular file of the archive.
pub record IsFile (members : List Member) (name : Text) (content : Bytes) : Type 0 where
  pub member : Member
  pub found : find_file members name ≡ some member
  pub is_file : is_regular member.kind ≡ true
  pub holds : member.content ≡ content

pub read_member-IsFile :
    (members : List Member) (name : Text) (content : Bytes)
    → read_member members name ≡ accepted content
    → IsFile members name content
unfolding read_member
read_member-IsFile members name content h = by_found (find_file members name) refl h
  where
    by_found :
        (o : Option Member)
        → find_file members name ≡ o
        → file_content name o ≡ accepted content
        → IsFile members name content
    by_found none e k = cc
    by_found (some m) e k =
        both_required (is_regular m.kind) _ _ k
          λ file k1. record { member = m; found = e; is_file = file; holds = accepted_injective k1 }

pub keep_one {ℓ} :
    {A : Type ℓ} (p : A → Bool) (xs : List A) (v : A) → keep p xs ≡ v ∷ [] → p v ≡ true
keep_one p [] v h = cc
keep_one p (x ∷ xs) v h = elim (Bool-cases (p x)) [
  | inl e ↦ cc (rw e at h)
  | inr e ↦ keep_one p xs v (rw e at h)
]

pub only_one :
    (vs : List Json) (message : Text) (v : Json) → only vs message ≡ accepted v → vs ≡ v ∷ []
unfolding only
only_one [] message v h = cc
only_one (w ∷ []) message v h = cc
only_one (w ∷ u ∷ ws) message v h = cc

-- The names of an archive are safe and distinct, and it has only files and directories.
pub record IsSound (members : List Member) : Type 0 where
  pub entries : All (λ m. (is_unsafe m.name ≡ false) × (is_entry m.kind ≡ true)) members
  pub distinct : Distinct (names_of members)

names_of-snoc :
    (ms : List Member) (m : Member) → names_of (ms ++ m ∷ []) ≡ names_of ms ++ m.name ∷ []
names_of-snoc [] m = refl
names_of-snoc (n ∷ ms) m = ap (λ ns. n.name ∷ ns) (names_of-snoc ms m)

not-true : (b : Bool) → not b ≡ true → b ≡ false
not-true true h = cc
not-true false h = refl

IsSound-snoc :
    (ms : List Member) (m : Member)
    → IsSound ms
    → not (is_unsafe m.name) ≡ true
    → not (contains m.name (names_of ms)) ≡ true
    → is_entry m.kind ≡ true
    → IsSound (ms ++ m ∷ [])
IsSound-snoc ms m s safe new entry = record {
  entries = All-append _ ms (m ∷ []) s.entries ((not-true _ safe, entry), tt);
  distinct =
      rw (names_of-snoc ms m) (Distinct-snoc (names_of ms) m.name s.distinct (not-true _ new));
}

archive_members-from :
    (before rest members : List Member)
    → IsSound before
    → archive_members before rest ≡ accepted members
    → IsSound members × (members ≡ before ++ rest)
unfolding archive_members
archive_members-from before [] members s h =
    let same = accepted_injective h in (rw (sym same) s, sym same ∙ sym (append-nil before))
archive_members-from before (m ∷ rest) members s h =
    both_required (not (is_unsafe m.name)) _ _ h λ safe h1.
      both_required (not (contains m.name (names_of before))) _ _ h1 λ new h2.
        both_required (is_entry m.kind) _ _ h2 λ entry h3.
          let (sound, same) =
            archive_members-from (before ++ m ∷ []) rest members
              (IsSound-snoc before m s safe new entry) h3 in
          (sound, same ∙ append_assoc before (m ∷ []) rest)

-- The members that are looked up are those of the archive, and they are sound.
pub archive_members-IsSound :
    (entries members : List Member)
    → archive_members [] entries ≡ accepted members
    → IsSound entries × (members ≡ entries)
archive_members-IsSound entries members h =
    let (sound, same) =
      archive_members-from [] entries members (record { entries = tt; distinct = tt }) h in
    (rw (sym same) sound, same)
