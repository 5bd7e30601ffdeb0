-- ===== src/Generator/Document.antt =====
-- The Turtle document that ontology/cmd/generate writes, and its main.
pub mod Writing
use skillsphere_api.Common.{
  String, ◌<>◌, not, Option, none, some, List, [], ◌∷◌, ◌++◌, if◌then◌else◌,
}
use skillsphere_api.Action.{Action, lift, ◌>>=◌, ◌>>◌}
use skillsphere_api.Database.{fail_if, wrapping, modify}
use skillsphere_api.Errors.{Error, Result, ok, err, message, wrapped}
use skillsphere_api.Strconv.{Bytes, ascii, is_nil}
use skillsphere_api.Generator.{EnumInfo, EnumValue, FileDescriptor, collect_enums, split_camel}

-- A line, with its end.
abbrev pub line : List Bytes → Bytes
line [] = 10 ∷ []
line (part ∷ parts) = part ++ line parts

abbrev pub quote : Bytes
quote = 34 ∷ []

unfoldable pub write_header : Bytes → Bytes
write_header buf =
    buf
    ++ (line (ascii "# Code generated by ontology/cmd/generate; DO NOT EDIT." ∷ [])
        ++ (line (ascii "@prefix sk: <https://ontology.skillsphere.dev/schema#> ." ∷ [])
            ++ (line (ascii "@prefix skos: <http://www.w3.org/2004/02/skos/core#> ." ∷ [])
                ++ (line (ascii "@prefix owl: <http://www.w3.org/2002/07/owl#> ." ∷ [])
                    ++ (line (ascii "@prefix rdfs: <http://www.w3.org/2000/01/rdf-schema#> ." ∷ [])
                        ++ line [])))))

unfoldable pub write_value : Bytes → EnumValue → Bytes
write_value enum_name v =
    line (v.concept_name ∷ ascii " a sk:" ∷ enum_name ∷ ascii "Concept , skos:Concept ;" ∷ [])
    ++ (line (ascii "  skos:prefLabel " ∷ quote ∷ v.pref_label ∷ quote ∷ ascii " ;" ∷ [])
        ++ (line (ascii "  skos:notation " ∷ quote ∷ v.notation ∷ quote ∷ ascii " ;" ∷ [])
            ++ (line (ascii "  skos:inScheme sk:" ∷ enum_name ∷ ascii "Scheme ." ∷ []) ++ line [])))

unfoldable pub write_values : Bytes → List EnumValue → Bytes
unfolding write_value
write_values enum_name [] = []
write_values enum_name (v ∷ vs) = write_value enum_name v ++ write_values enum_name vs

abbrev pub write_scheme : EnumInfo → Bytes
write_scheme enum =
    line (ascii "# " ∷ enum.name ∷ ascii " (" ∷ enum.file ∷ ascii ")" ∷ [])
    ++ (line (ascii "sk:" ∷ enum.name ∷ ascii "Concept a owl:Class ;" ∷ [])
        ++ (line (ascii "  rdfs:subClassOf skos:Concept ." ∷ [])
            ++ (line []
                ++ (line (ascii "sk:" ∷ enum.name ∷ ascii "Scheme a skos:ConceptScheme ;" ∷ [])
                    ++ (line (
                          ascii "  rdfs:label "
                          ∷ quote
                          ∷ split_camel enum.name
                          ∷ quote
                          ∷ ascii " ."
                          ∷ [])
                        ++ line [])))))

-- An enum without values writes nothing.
abbrev pub write_if_any : List EnumValue → Bytes → Bytes
write_if_any [] text = []
write_if_any (v ∷ vs) text = text

unfoldable pub write_enum : EnumInfo → Bytes
unfolding write_values
write_enum enum = write_if_any enum.values (write_scheme enum ++ write_values enum.name enum.values)

unfoldable pub write_enums : List EnumInfo → Bytes
unfolding write_enum
write_enums [] = []
write_enums (enum ∷ enums) = write_enum enum ++ write_enums enums

-- What `buf build` leaves: its two outputs, and the error of cmd.Run.
pub record BufRun : Type 0 where
  pub stdout : Bytes
  pub stderr : Bytes
  pub failure : Option Error

-- What os.WriteFile comes to: it has written the text, or it fails, and then the file may be as it
-- was (`none`) or hold some other text, truncated or partly written.
pub data Written : Type 0 where
  whole : Written
  failed : Error → Option Bytes → Written

-- What main takes from outside: os.ReadFile, `buf build` in a directory, proto.Unmarshal,
-- strings.TrimSpace as a text of an error, filepath.Dir, os.MkdirAll and os.WriteFile.
pub record Machine : Type 0 where
  pub read_file : Bytes → Result Bytes
  pub run_buf : Bytes → BufRun
  pub unmarshal : Bytes → Result (List FileDescriptor)
  pub trim_space : Bytes → String
  pub dir : Bytes → Bytes
  pub mkdir_all : Bytes → Option Error
  pub write_file : Bytes → Bytes → Written

-- The flags.
pub record Flags : Type 0 where
  pub descriptor : Bytes
  pub module_path : Bytes
  pub out : Bytes

-- The files that were written to, with the text they were left with, the newest first.
abbrev pub Files : Type 0
Files = List (Bytes × Bytes)

-- What loadDescriptor makes of a run of `buf build`.
abbrev pub built : Machine → BufRun → Option Error → Result Bytes
built m r none = ok r.stdout
built m r (some e) =
    if is_nil r.stderr
    then err (wrapped "buf build failed" e)
    else err (message ("buf build failed: " <> m.trim_space r.stderr))

unfoldable pub load_descriptor : Machine → Flags → Result Bytes
load_descriptor m flags =
    if not (is_nil flags.descriptor)
    then m.read_file flags.descriptor
    else built m (m.run_buf flags.module_path) (m.run_buf flags.module_path).failure

abbrev pub write_document : List EnumInfo → Result Bytes
write_document [] = err (message "no enums found in descriptor set")
write_document (enum ∷ enums) = ok (write_header [] ++ write_enums (enum ∷ enums))

abbrev pub add_file : Bytes → Bytes → Files → Files
add_file path text files = (path, text) ∷ files

abbrev pub write_out : Bytes → Bytes → Written → Action Files (Unit {0})
write_out path text whole files = (ok tt, add_file path text files)
write_out path text (failed e none) files = (err (wrapped "write file" e), files)
write_out path text (failed e (some left)) files =
    (err (wrapped "write file" e), add_file path left files)

-- main; an error ends it by `die`.
unfoldable pub generate : Machine → Flags → Action Files (Unit {0})
unfolding load_descriptor
generate m flags = do
  data' ← lift (load_descriptor m flags)
  set ← wrapping "unmarshal descriptor set" (m.unmarshal data')
  text ← lift (write_document (collect_enums set))
  fail_if "create output directory" (m.mkdir_all (m.dir flags.out))
  write_out flags.out text (m.write_file flags.out text)
