-- ===== src/Tests/Deploy.antt =====
-- The run of fabric-network/tools/ccdeploy/main.go against containers where every command succeeds and
-- prints one and the same text; the state counts the commands.
use fabric_hris.Prelude.{ℕ, ◌+◌, Text, text, has_prefix, contains, ◌≡◌, refl, true, some, [], ◌∷◌}
use fabric_hris.Errors.{ok}
use fabric_hris.Tools.Shell.{Docker}
use fabric_hris.Tools.Peers.{peers}
use fabric_hris.Tools.Netjoin.Joined.{EachDid}
use fabric_hris.Tools.Ccdeploy.{find_package_id, deploy}
use fabric_hris.Tools.Ccdeploy.PackageId.{package_line, find_package_id-first}
use fabric_hris.Tools.Ccdeploy.Deployed.{Installed, Listed, Released, Answered, deploy-ok}
use fabric_hris.Tools.Ccdeploy.Asked.{query}

abbrev package_id : Text
package_id = text "employeeprofilerecord_1.0:1f"

abbrev label : Text
label = text " Label: employeeprofilerecord_1.0"

find_package_id-first_example :
    find_package_id
      (λ t. t)
      (text "Installed chaincodes on peer:" ∷ package_line package_id label ∷ [])
    ≡ some package_id
unfolding contains text
find_package_id-first_example =
    find_package_id-first (λ t. t) (text "Installed chaincodes on peer:" ∷ []) [] package_id label
      (refl, tt) refl refl refl refl

abbrev docker : Docker ℕ
docker = record {
  run = λ args n.
      (record { output = package_line package_id (text " cc5smoketest"); outcome = ok tt }, n + 1);
  cat = λ path n. (ok path, n);
}

-- Four installations, the list, five steps and the query.
deploys : deploy docker (λ t. t) 0 ≡ (ok tt, 11)
unfolding deploy text has_prefix contains
deploys = refl

deploy-ok_example :
    (id out : Text) × (d1 d2 d3 : ℕ) × EachDid (Installed docker) peers 0 d1
    × Listed docker (λ t. t) id d1 d2
    × Released docker id d2 d3
    × Answered docker query out d3 11
    × (contains out (text "cc5smoketest") ≡ true)
deploy-ok_example = deploy-ok docker (λ t. t) 0 11 deploys
