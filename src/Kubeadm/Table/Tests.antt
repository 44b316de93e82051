-- ===== src/Kubeadm/Table/Tests.antt =====
-- The table of kubeadm 1.17.4, from pkg/pki/cert/kubeadm/exec_test.go, shortened.
use kucero.Base.{
  map, Text, ◌≡◌, refl, Option, none, some, [], ◌∷◌, ◌++◌, bytes, text_eq, nat_eq, pos, ◌==◌,
  if◌then◌else◌, ◌↔◌,
}
use kucero.Api.Time.{Time}
use kucero.Kubeadm.Table.{is_space, trim_right, find_submatch, is_header, parse_check_expiration}
use kucero.Kubeadm.Table.Submatch.{IsSubmatch, find_submatch_iff}
use kucero.Kubeadm.Table.Laws.{join_lines, Row, row_text, entry, IsRow, parse_table}

abbrev may_12 : Text
may_12 = bytes "May 12, 2021 02:29 UTC"

abbrev parse_time : Text → Option Time
parse_time date =
    if date == may_12
    then some (pos 1)
    else if date == bytes "Mar 11, 2030 01:51 UTC"
    then some (pos 2)
    else none

abbrev newline : Text
newline = 10 ∷ []

abbrev header : Text
header =
    bytes
      "CERTIFICATE                EXPIRES                  RESIDUAL TIME   CERTIFICATE AUTHORITY   EXTERNALLY MANAGED"

abbrev kubeadm_1_17 : Text
kubeadm_1_17 =
    newline
    ++ (header
        ++ (newline
            ++ (bytes
                  "admin.conf                 May 12, 2021 02:29 UTC   364d                                    no"
                ++ (newline
                    ++ (bytes
                          "apiserver                  May 12, 2021 02:29 UTC   364d            ca                      no"
                        ++ (newline
                            ++ (newline
                                ++ (bytes
                                      "CERTIFICATE AUTHORITY   EXPIRES                  RESIDUAL TIME   EXTERNALLY MANAGED"
                                    ++ (newline
                                        ++ (bytes
                                              "etcd-ca                 Mar 11, 2030 01:51 UTC   9y              no"
                                            ++ (newline ++ bytes "  ")))))))))))

parse_1_17 :
    parse_check_expiration parse_time kubeadm_1_17
    ≡ (bytes "admin.conf", pos 1) ∷ (bytes "apiserver", pos 1) ∷ (bytes "etcd-ca", pos 2) ∷ []
unfolding parse_check_expiration is_space text_eq nat_eq
parse_1_17 = refl

abbrev api_row : Row
api_row = record {
  name = bytes "apiserver";
  pad = bytes "        ";
  date = may_12;
  rest = bytes "  364d   ca   no";
  time = pos 1;
}

api_row-IsRow : IsRow parse_time api_row
unfolding is_space find_submatch trim_right text_eq nat_eq
api_row-IsRow = record {
  begins = refl;
  ends = refl;
  padding = refl;
  date_fits = refl;
  no_later = refl;
  stands_for = refl;
  one_line = refl;
}

parse_table_example :
    parse_check_expiration parse_time (join_lines [] (header ∷ map row_text (api_row ∷ [])))
    ≡ map entry (api_row ∷ [])
unfolding is_header nat_eq
parse_table_example =
    parse_table parse_time [] header (api_row ∷ []) refl refl refl refl (api_row-IsRow, tt)
      (refl, tt)

abbrev api_line : Text
api_line = bytes "apiserver  May 12, 2021 02:29 UTC  364d"

abbrev api_before : Text
api_before = bytes "apiserver "

find_submatch_iff_example :
    (find_submatch api_line ≡ some (api_before, may_12)) ↔ IsSubmatch api_line api_before may_12
find_submatch_iff_example = find_submatch_iff api_line api_before may_12

finds_api : find_submatch api_line ≡ some (api_before, may_12)
unfolding find_submatch nat_eq
finds_api = refl
