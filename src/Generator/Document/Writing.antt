-- ===== src/Generator/Document/Writing.antt =====
-- Which file the generator writes.
use skillsphere_api.Common.{
  refl, none, some, ◌≡◌, ◌⊎◌, inl, inr, List, [], ◌∷◌, ◌++◌, arith, Option-cases,
}
use skillsphere_api.Errors.{Error, ok, err, message, wrapped, Result-cases}
use skillsphere_api.Strconv.{Bytes}
use skillsphere_api.Generator.{EnumInfo, FileDescriptor, collect_enums}
use skillsphere_api.Generator.Document.{
  Machine, Flags, Files, Written, whole, failed, load_descriptor, write_header, write_enums,
  generate,
}

-- A run that wrote its file: what it read and what the file holds.
pub record Wrote (m : Machine) (flags : Flags) (files files' : Files) : Type 0 where
  pub bytes : Bytes
  pub set : List FileDescriptor
  pub enum : EnumInfo
  pub enums : List EnumInfo
  pub loaded : load_descriptor m flags ≡ ok bytes
  pub parsed : m.unmarshal bytes ≡ ok set
  pub collected : collect_enums set ≡ enum ∷ enums
  pub written : files' ≡ (flags.out, write_header [] ++ write_enums (enum ∷ enums)) ∷ files

-- A run that failed: it wrote no file, or os.WriteFile failed and left another text in the file.
pub data Failed (m : Machine) (flags : Flags) (files files' : Files) : Type 0 where
  untouched : files' ≡ files → Failed m flags files files'
  broken :
      (text left : Bytes) (e : Error)
      → m.write_file flags.out text ≡ failed e (some left)
      → files' ≡ (flags.out, left) ∷ files
      → Failed m flags files files'

List-cases : (l : List EnumInfo) → (l ≡ []) ⊎ ((x : EnumInfo) × (xs : List EnumInfo) × (l ≡ x ∷ xs))
List-cases [] = inl refl
List-cases (x ∷ xs) = inr (x, xs, refl)

Written-cases :
    (r : Written)
    → (r ≡ whole)
      ⊎ ((e : Error) × (r ≡ failed e none))
      ⊎ ((e : Error) × (left : Bytes) × (r ≡ failed e (some left)))
Written-cases whole = inl refl
Written-cases (failed e none) = inr (inl (e, refl))
Written-cases (failed e (some left)) = inr (inr (e, left, refl))

-- The generator fails, and then it has written to no file or os.WriteFile failed and left another
-- text in the file of the flags; or it succeeds and has written one file, the one that the flags
-- name, with the header and the concepts of all enums of the descriptor set, of which there is at
-- least one.
pub generate-Wrote :
    (m : Machine) (flags : Flags) (files : Files)
    → let (r, files') = generate m flags files in
      ((e : Error) × (r ≡ err e) × Failed m flags files files')
      ⊎ ((r ≡ ok tt) × Wrote m flags files files')
unfolding generate
generate-Wrote m flags files = elim (Result-cases (load_descriptor m flags)) [
  | inr (e, bad) ↦ inl (e, ground arith, untouched (ground arith))
  | inl (bytes, loaded) ↦ elim (Result-cases (m.unmarshal bytes)) [
    | inr (e, bad) ↦
        inl (wrapped "unmarshal descriptor set" e, ground arith, untouched (ground arith))
    | inl (set, parsed) ↦ elim (List-cases (collect_enums set)) [
      | inl empty ↦
          inl (message "no enums found in descriptor set", ground arith, untouched (ground arith))
      | inr (enum, enums, collected) ↦ elim (Option-cases (m.mkdir_all (m.dir flags.out))) [
        | inr (e, bad) ↦
            inl (wrapped "create output directory" e, ground arith, untouched (ground arith))
        | inl made ↦
            let text = write_header [] ++ write_enums (enum ∷ enums) in
            elim (Written-cases (m.write_file flags.out text)) [
              | inl done ↦ inr (
                ground arith,
                record {
                  bytes = bytes;
                  set = set;
                  enum = enum;
                  enums = enums;
                  loaded = loaded;
                  parsed = parsed;
                  collected = collected;
                  written = ground arith;
                },
              )
              | inr (inl (e, bad)) ↦
                  inl (wrapped "write file" e, ground arith, untouched (ground arith))
              | inr (inr (e, left, bad)) ↦
                  inl (wrapped "write file" e, ground arith, broken text left e bad (ground arith))
            ]
      ]
    ]
  ]
]
