-- ===== src/Receiver/Queries.antt =====
-- receiver_proc/instance_data_parser.cpp: the text of the statements.
use worker_unit.Base.{ℕ, List, [], ◌∷◌, ◌++◌}
use worker_unit.Base.Text.{Bytes}
use worker_unit.FileDatabase.{comma}

-- "CREATE TABLE "
abbrev pub create_table : Bytes
create_table = 67 ∷ 82 ∷ 69 ∷ 65 ∷ 84 ∷ 69 ∷ 32 ∷ 84 ∷ 65 ∷ 66 ∷ 76 ∷ 69 ∷ 32 ∷ []

-- "INSERT INTO "
abbrev pub insert_into : Bytes
insert_into = 73 ∷ 78 ∷ 83 ∷ 69 ∷ 82 ∷ 84 ∷ 32 ∷ 73 ∷ 78 ∷ 84 ∷ 79 ∷ 32 ∷ []

-- " ("
abbrev pub opening : Bytes
opening = 32 ∷ 40 ∷ []

-- " varchar(30) NOT NULL,"
abbrev pub column_type : Bytes
column_type =
    32 ∷ 118 ∷ 97 ∷ 114 ∷ 99 ∷ 104 ∷ 97 ∷ 114 ∷ 40 ∷ 51 ∷ 48 ∷ 41 ∷ 32 ∷ 78 ∷ 79 ∷ 84 ∷ 32 ∷ 78 ∷ 85
    ∷ 76 ∷ 76 ∷ 44 ∷ []

-- "ID INTEGER PRIMARY KEY AUTOINCREMENT);"
abbrev pub id_column : Bytes
id_column =
    73 ∷ 68 ∷ 32 ∷ 73 ∷ 78 ∷ 84 ∷ 69 ∷ 71 ∷ 69 ∷ 82 ∷ 32 ∷ 80 ∷ 82 ∷ 73 ∷ 77 ∷ 65 ∷ 82 ∷ 89 ∷ 32
    ∷ 75 ∷ 69 ∷ 89 ∷ 32 ∷ 65 ∷ 85 ∷ 84 ∷ 79 ∷ 73 ∷ 78 ∷ 67 ∷ 82 ∷ 69 ∷ 77 ∷ 69 ∷ 78 ∷ 84 ∷ 41 ∷ 59
    ∷ []

-- ") VALUES ("
abbrev pub values_ : Bytes
values_ = 41 ∷ 32 ∷ 86 ∷ 65 ∷ 76 ∷ 85 ∷ 69 ∷ 83 ∷ 32 ∷ 40 ∷ []

-- ");"
abbrev pub ending : Bytes
ending = 41 ∷ 59 ∷ []

-- "DESC "
abbrev pub desc : Bytes
desc = 68 ∷ 69 ∷ 83 ∷ 67 ∷ 32 ∷ []

-- "DROP TABLE "
abbrev pub drop_table : Bytes
drop_table = 68 ∷ 82 ∷ 79 ∷ 80 ∷ 32 ∷ 84 ∷ 65 ∷ 66 ∷ 76 ∷ 69 ∷ 32 ∷ []

-- ";"
abbrev pub semicolon : Bytes
semicolon = 59 ∷ []

abbrev pub quote : ℕ
quote = 39

abbrev pub declarations : List Bytes → Bytes
declarations [] = []
declarations (f ∷ fs) = f ++ (column_type ++ declarations fs)

abbrev pub commas : List Bytes → Bytes
commas [] = []
commas (f ∷ []) = f
commas (f ∷ g ∷ fs) = f ++ (comma ∷ commas (g ∷ fs))

abbrev pub quoted : List Bytes → List Bytes
quoted [] = []
quoted (v ∷ vs) = (quote ∷ (v ++ (quote ∷ []))) ∷ quoted vs

pub record Queries : Type 0 where
  pub create_table_query : Bytes
  pub insert_value_query : Bytes
  pub verify_table_query : Bytes
  pub drop_table_query : Bytes

abbrev pub queries : Bytes → List Bytes → Queries
queries id fields = record {
  create_table_query = create_table ++ (id ++ (opening ++ (declarations fields ++ id_column)));
  insert_value_query = insert_into ++ (id ++ (opening ++ (commas fields ++ values_)));
  verify_table_query = desc ++ (id ++ semicolon);
  drop_table_query = drop_table ++ (id ++ semicolon);
}

abbrev pub insert_query : Queries → List Bytes → Bytes
insert_query qs values = qs.insert_value_query ++ (commas (quoted values) ++ ending)
