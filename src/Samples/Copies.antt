-- ===== src/Samples/Copies.antt =====
-- A deep copy of a list with one project.
use projectresourcequota.Prelude.{String, ◌≡◌, refl, none, some, [], ◌∷◌, arith}
use projectresourcequota.Prelude.Int.{ℤ}
use projectresourcequota.Dict.{lookup}
use projectresourcequota.Memory.{ProjectValue, ListValue, Memory}
use projectresourcequota.Memory.DeepCopy.{project_list_deep_copy_object}
use projectresourcequota.Memory.Copied.{IsMaps, IsCopied}
use projectresourcequota.Memory.Projects.{list_content, project_list_deep_copy-IsCopied}
use projectresourcequota.Samples.{exact, whole, meta_of}

-- The namespaces of the project are at 0, its limits at 1, and the array of projects is at 2.
abbrev stored : ProjectValue
stored = record {
  type_meta = record { kind = "ProjectResourceQuota"; api_version = "jenting.io/v1" };
  meta = meta_of "a" "";
  spec = record { namespaces = some 0; hard = some 1 };
  status = record { used = none; namespaces = none };
}

abbrev memory : Memory ℤ
memory = record {
  strings = λ a. "a1" ∷ [];
  projects = λ a. stored ∷ [];
  resources = λ a. ("pods", whole 4) ∷ [];
  next = 3;
}

abbrev one_list : ListValue String
one_list = record {
  type_meta = record { kind = "ProjectResourceQuotaList"; api_version = "jenting.io/v1" };
  meta = "7";
  items = some 2;
}

memory-IsMaps : IsMaps memory
unfolding lookup
memory-IsMaps a = (refl, tt)

project_list_deep_copy-IsCopied_example :
    (out : ListValue String) × (m' : Memory ℤ) × (project_list_deep_copy_object
        (λ meta. meta)
        (λ meta. meta)
        (some one_list)
        memory
      ≡ (some out, m'))
    × IsCopied list_content one_list memory (out, m')
project_list_deep_copy-IsCopied_example =
    project_list_deep_copy-IsCopied (λ meta. meta) (λ meta. refl) (λ meta. meta) (λ meta. refl)
      one_list memory memory-IsMaps
      (
        omega arith,
        (
          (λ w agree.
              rw
                (
                  agree.strings 0 (omega arith) (omega arith),
                  agree.resources 1 (omega arith) (omega arith),
                )
                refl),
          tt,
        ),
      )
