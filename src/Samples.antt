-- ===== src/Samples.antt =====
-- A concrete authority, request and policy, shared by the tests.
use kucero.Base.{
  false, ℕ, Text, ◌++◌, ◌==◌, words_eq, text_eq, contains, if◌then◌else◌, true, none, some, List,
  [], ◌∷◌, bytes, pos_part,
}
use kucero.Api.Time.{Duration, seconds, minutes, zero_time}
use kucero.Api.Csr.{CertificateSigningRequest}
use kucero.Api.Error.{KeyUsage, external, server_auth, key_encipherment, ok}
use kucero.Api.X509.{Name, Certificate, CertificateRequest}
use kucero.Authority.Policy.{PermissiveSigningPolicy}
use kucero.Authority.Sign.{CertificateAuthority, Crypto}
use kucero.Signer.CaProvider.{Content}
use kucero.Signer.Sign.{Signer, Tools}
use kucero.Host.Run.{Host}
use kucero.Host.Kubectl.{Drainer}
use kucero.Daemon.Lock.{DaemonSetLock}
use kucero.Kubelet.Config.{Tools as KubeletTools}
use kucero.Host.Commands.{Shell}
use kucero.Kubeadm.Certificates.{Tools as KubeadmTools, version_command}

abbrev pub node_name : Name
node_name = record { common_name = "system:node:a"; organization = "system:nodes" ∷ [] }

abbrev pub request : CertificateRequest
request = record {
  raw = bytes "csr";
  subject = node_name;
  dns_names = "a" ∷ [];
  ip_addresses = (10 ∷ 0 ∷ 0 ∷ 1 ∷ []) ∷ [];
  email_addresses = [];
  uris = [];
  public_key_algorithm = 1;
  public_key = bytes "key";
  extensions = bytes "ext" ∷ [];
  extra_extensions = [];
}

abbrev pub root : Certificate
root = record {
  serial_number = 1;
  subject = record { common_name = "kubernetes"; organization = [] };
  dns_names = [];
  ip_addresses = [];
  email_addresses = [];
  uris = [];
  public_key_algorithm = 1;
  public_key = bytes "ca";
  extensions = [];
  extra_extensions = [];
  not_before = zero_time;
  not_after = minutes 1000;
  key_usage = 32;
  ext_key_usage = [];
  basic_constraints_valid = true;
  is_ca = true;
}

abbrev pub ca : CertificateAuthority
ca = record {
  raw_cert = bytes "crt";
  raw_key = bytes "pem";
  certificate = root;
  private_key = bytes "pem";
  backdate = minutes 5;
  now = none;
}

abbrev pub crypto : Crypto
crypto = record {
  parse_certificate_request = λ der. ok request;
  check_signature = λ cr. none;
  random_serial = ok 77;
  create_certificate = λ tmpl parent public private. ok tmpl.public_key;
}

abbrev pub policy : PermissiveSigningPolicy
policy = record { ttl = minutes 60; usages = server_auth ∷ key_encipherment ∷ [] }

abbrev pub same : List ℕ → List ℕ
same l = l

-- A signing request of the node for the given usages.
abbrev pub with_usages : List KeyUsage → CertificateSigningRequest
with_usages usages = record {
  name = "csr-a";
  deletion_timestamp = none;
  spec = record {
    request = bytes "pem";
    username = "system:node:a";
    uid = "";
    groups = "system:nodes" ∷ [];
    extra = ("k", "v" ∷ []) ∷ [];
    usages = usages;
    expiration_seconds = none;
  };
  conditions = [];
  certificate = none;
}

abbrev pub tools : Tools
tools = record {
  expiration_seconds_to_duration = λ s. seconds (pos_part s);
  encode_to_memory = λ kind der. der;
  crypto = crypto;
  parsers = record {
    parse_certs_pem = λ pem. ok (root ∷ []);
    parse_private_key_pem = λ pem. ok pem;
    as_signer = λ key. some key;
  };
  range = same;
}

abbrev pub with_ttl : Duration → Signer
with_ttl ttl = record {
  ca_provider = record { ca_value = some ca; loader_name = "csr-controller" };
  cert_ttl = ttl;
}

abbrev pub files : Content
files = record { cert_pem = bytes "crt"; key_pem = bytes "pem" }

-- What `kubeadm certs check-expiration` prints.
abbrev pub table_text : Text
table_text =
    bytes "CERTIFICATE   EXPIRES   RESIDUAL TIME"
    ++ (10 ∷ bytes "apiserver   May 12, 2021 02:29 UTC   364d   no")

-- Every command succeeds and prints the table, but for the version.
abbrev pub machine : Shell Unit
machine = record {
  exec = λ args w. record {
    stdout = if args == version_command then bytes "v1.20.0" ++ (10 ∷ []) else table_text;
    error = none;
    world = w;
  };
}

abbrev pub idle : Host Unit
idle = record { world = tt; effects = [] }

abbrev pub kubeadm_tools : KubeadmTools Unit
kubeadm_tools = record {
  shell = machine;
  local_time = λ w. record { year = 2020; month = 5; day = 12; hour = 3; minute = 4; second = 5 };
  clock = record { now = λ w. record { time = minutes 1; world = w } };
  parse_time = λ date. some (minutes 5);
  range = λ m. m;
  at_least_1_20 = λ v. some true;
}

-- Two certificates are listed, and that of admin.conf cannot be copied.
abbrev pub faulty_tools : KubeadmTools Unit
faulty_tools = record kubeadm_tools {
  shell = record {
    exec = λ args w. record {
      stdout =
          if args == version_command
          then bytes "v1.20.0" ++ (10 ∷ [])
          else table_text ++ (10 ∷ bytes "admin.conf   May 12, 2021 02:29 UTC   364d   no");
      error =
          if contains args (bytes "/etc/kubernetes/admin.conf") then some (external "cp") else none;
      world = w;
    };
  };
}

-- Both files of the kubelet need an update.
abbrev pub kubelet_tools : KubeletTools Unit
kubelet_tools = record {
  shell = machine;
  files = record {
    load_from_file = λ p w. ok (record {
      auth_infos =
          (
            bytes "node",
            record {
              client_certificate = [];
              client_certificate_data = bytes "pem";
              client_key = [];
              client_key_data = bytes "pem";
              others = [];
            },
          )
          ∷ [];
      others = [];
    });
    write_to_file = λ c p w. record { error = none; world = w };
    read_file = λ p w. ok [];
    unmarshal = λ s. ok (record { rotate_certificates = false; server_tls_bootstrap = true });
    stat = λ p w. ok 420;
    write = λ p s mode w. record { error = none; world = w };
  };
  etc_first = λ w. false;
}

abbrev pub free_drainer : Drainer Unit
free_drainer = record {
  run_cordon_or_uncordon = λ b w. record { error = none; world = w };
  run_node_drain = λ w. record { error = none; world = w };
}

-- A lock that the node does not hold at the start and can take.
abbrev pub open_lock : DaemonSetLock Unit
open_lock = record {
  test = λ meta w. record { holding = false; error = none; metadata = meta; world = w };
  acquire = λ meta ttl w. record {
    holding = true;
    holder = "a";
    error = none;
    metadata = meta;
    world = w;
  };
  release = λ w. record { error = none; world = w };
}
