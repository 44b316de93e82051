-- ===== src/Lib.antt =====
-- kucero: a daemon that runs on each node of a Kubernetes cluster, renews the certificates that
-- kubeadm issued before they expire, keeps the kubelet configured to rotate its own certificates,
-- and, on the control plane, signs the kubelets' requests for serving certificates.
--
-- The parts, and the files of the repository that they model:
--
-- - Base: shared types and lemmas. A byte string is the list of its bytes, `Text`; texts that the
--   program only compares are strings. Numbers are natural numbers, and ℤ for times and durations.
-- - Api: what the parts exchange. Time is package time and pkg/pki/clock/clock.go, in nanoseconds;
--   Error is Go's error, with its format and what was formatted; Csr and X509 hold the fields of
--   the Kubernetes object and of crypto/x509 that the program uses.
-- - Authority: pkg/pki/authority. Usages is `keyUsagesFromStrings` of policies.go, Policy the
--   signing policy, Sign `CertificateAuthority.Sign` of authority.go, with Sign/Exact as the
--   field-by-field description of what it returns.
-- - Signer: pkg/pki/signer. CaProvider is ca_provider.go: the authority in memory, reloaded when
--   the files change; its Replay has a provider that knows the content only. Sign is signer.go,
--   which takes the current authority and calls Authority.
-- - Cert: `ParseCSR` of pkg/pki/cert/parser.go.
-- - Controllers: controllers. Helper is `isNodeServingCert`; Types and Reconcile are the
--   controller's `Reconcile` with `authorize` and `appendApprovalCondition`, which calls Cert and
--   Signer. Reconcile/Course is the list of its ends, apart from its text. The API server is a
--   record of answers, `Env`, and what is sent to it is recorded as a list of actions. Sequence
--   calls `Reconcile` for a queue of requests. Server puts it against the objects that the API
--   server stores: what the server does with a request that it accepts is the parameter `Store`,
--   with its documented behaviour in `IsStore`, and Server/Lifecycle has the abstract life of a
--   request. Server/Origin and Server/Issued follow a certificate on the server back to the call
--   that put it there, and through the signer to the authority; Server/Progress follows a request
--   that waits for one.
-- - Host: pkg/host. An operation takes the state of the host to an end, a value or a panic, and the
--   state after it; each command, write, call to drain or cordon and call to the lock is recorded
--   in `effects`. Host/Ends has what it means that an operation returns whatever the host does.
-- - Kubeadm: pkg/pki/cert/kubeadm. Expiry and Table are the test of a date and the parser of what
--   `kubeadm certs check-expiration` prints (exec.go); Table/Regex says what a regular expression
--   matches, Table/Classes and Table/Date spell out that of a date and Table/Submatch the whole one
--   with its greedy first group, against which the search in Table stands. Backup is the path of a
--   backup, Certificates `CheckExpiration` and `Rotate` (kubeadm.go, exec.go), with
--   Certificates/Success and Certificates/Exact as the description of a rotation that succeeds,
--   Certificates/Attempts as that of what `Rotate` tries when commands fail, and
--   Certificates/Machine as that of a machine whose kubeadm does what its commands say.
-- - Kubelet: pkg/pki/conf/kubelet. Kubeconfig is kubelet.conf, ConfigYaml config.yaml (exec.go),
--   Config `CheckConfig` and `UpdateConfig` (kubelet.go), with Config/Writes as the description of
--   a write that succeeds and Config/Exact as that of a whole update; Config/Disk states what the
--   files of the machine are relied on for.
-- - Daemon: Node is pkg/pki/node/node.go with the interfaces of pkg/pki/conf/conf.go and
--   pkg/pki/cert/certificate.go, and pkg/pki/cert/null/null.go; Lock is cmd/kucero/lock.go; Loop
--   the loop of cmd/kucero/main.go over a list of events. Start is the rest of main.go: the flags
--   with their defaults, `root`, and the goroutine that readies the controller, with
--   `SetupWithManager`. Cluster is several such daemons on one lock, as an interleaving of their
--   effects.
-- - Samples: the concrete values of the tests.
--
-- Code outside the repository is a parameter: the parsers and the crypto of crypto/x509, the loader
-- of the CA files, the API server, the lock of kured, kubectl's drain package, the shell and the
-- files of the machine, `time.Parse`, the version test and the YAML decoder. Each answers as a
-- function of what it is given, or of an unknown world of type `W`. The order in which Go visits a
-- map is a parameter as well. The CA provider's stored value is the one that each call leaves to
-- the next. No definition runs on fuel: the loops are over lists and end with them.
--
-- Not modelled: the parsing of the command line and logging, which are calls of libraries; in
-- Daemon/Start, the construction of clients and of the manager, the discovery of the API and
-- `rand.Intn` are parameters, and so is the number of whole seconds of a duration, which the
-- program takes in floating point. The sum of the polling period wraps at 64 bits (`wrap_64`); the
-- other arithmetic of the program is on times, exact in `Add` and saturated in `Sub`, and does not
-- wrap here. Requests are reconciled one after another. The metadata of the lock is one Boolean.
pub mod Base
pub mod Api
pub mod Authority
pub mod Signer
pub mod Cert
pub mod Controllers
pub mod Host
pub mod Kubeadm
pub mod Kubelet
pub mod Daemon
pub mod Samples
